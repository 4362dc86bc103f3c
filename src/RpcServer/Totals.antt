-- ===== src/RpcServer/Totals.antt =====
-- Sums over the workers of a server, and counts of descriptors.
use le_kv.Base.{
  ℕ, zero, suc, ◌+◌, ◌≤◌, some, List, [], ◌∷◌, ◌++◌, ◌==◌, ◌≡◌, ap, arith, get_elem?, set,
  if◌then◌else◌,
}
use le_kv.RpcServer.{count, erase}

abbrev pub total {ℓ} : {A : Type ℓ} → (A → ℕ) → List A → ℕ
total f [] = 0
total f (x ∷ xs) = f x + total f xs

module _ {ℓ} {A : Type ℓ} (f : A → ℕ) where
  pub total-append : (xs ys : List A) → total f (xs ++ ys) ≡ total f xs + total f ys
  total-append [] ys = omega arith
  total-append (x ∷ xs) ys = omega (arith, total-append xs ys)

  -- A change of one element.
  pub total-set :
      (xs : List A) (i : ℕ) (x y : A)
      → get_elem? xs i ≡ some x
      → total f (set xs i y) + f x ≡ total f xs + f y
  total-set [] i x y g = cc
  total-set (z ∷ xs) zero x y g = let same : z ≡ x = cc in omega (arith, ap f same)
  total-set (z ∷ xs) (suc i) x y g = let later = total-set xs i x y g in omega arith

  pub get_elem?-total : (xs : List A) (i : ℕ) (x : A) → get_elem? xs i ≡ some x → f x ≤ total f xs
  get_elem?-total [] i x g = cc
  get_elem?-total (z ∷ xs) zero x g = let same : z ≡ x = cc in omega (arith, ap f same)
  get_elem?-total (z ∷ xs) (suc i) x g = omega (arith, get_elem?-total xs i x g)

pub count-append : (fd : ℕ) (xs ys : List ℕ) → count fd (xs ++ ys) ≡ count fd xs + count fd ys
unfolding count
count-append fd [] ys = omega arith
count-append fd (x ∷ xs) ys = omega (arith, count-append fd xs ys)

-- Erasing takes away one occurrence, and none of another descriptor.
pub count-erase_le :
    (fd c : ℕ) (xs : List ℕ) → count fd xs ≤ count fd (erase c xs) + (if c == fd then 1 else 0)
unfolding count erase
count-erase_le fd c [] = omega arith
count-erase_le fd c (x ∷ xs) = let later = count-erase_le fd c xs in ground arith
