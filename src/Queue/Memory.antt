-- ===== src/Queue/Memory.antt =====
-- Bytes copied into a buffer and out of it.
use le_kv.Base.{
  ℕ, zero, suc, ◌+◌, ◌<◌, ◌≤◌, some, [], ◌∷◌, ◌++◌, ◌≡◌, ◌≢◌, refl, ap, sym, ◌∙◌, arith, length,
  length-take, length-drop, get_elem?, set, take, drop,
}
use le_kv.Bytes.{Bytes}
use le_kv.Bytes.Endian.{slice}

-- A copy of bytes to an offset of the buffer.
unfoldable pub write_at : Bytes → ℕ → Bytes → Bytes
write_at buf at [] = buf
write_at buf at (b ∷ bs) = write_at (set buf at b) (suc at) bs

length-set : (xs : Bytes) (i v : ℕ) → length (set xs i v) ≡ length xs
length-set [] i v = refl
length-set (x ∷ xs) zero v = refl
length-set (x ∷ xs) (suc i) v = ap suc (length-set xs i v)

pub length-write_at : (buf : Bytes) (at : ℕ) (bs : Bytes) → length (write_at buf at bs) ≡ length buf
unfolding write_at
length-write_at buf at [] = refl
length-write_at buf at (b ∷ bs) = length-write_at (set buf at b) (suc at) bs ∙ length-set buf at b

get_elem?-set_self : (xs : Bytes) (i v : ℕ) → i < length xs → get_elem? (set xs i v) i ≡ some v
get_elem?-set_self [] i v h = absurd (omega arith)
get_elem?-set_self (x ∷ xs) zero v h = refl
get_elem?-set_self (x ∷ xs) (suc i) v h = get_elem?-set_self xs i v (omega arith)

get_elem?-set_ne : (xs : Bytes) (i j v : ℕ) → i ≢ j → get_elem? (set xs i v) j ≡ get_elem? xs j
get_elem?-set_ne [] i j v h = refl
get_elem?-set_ne (x ∷ xs) zero zero v h = absurd (h refl)
get_elem?-set_ne (x ∷ xs) zero (suc j) v h = refl
get_elem?-set_ne (x ∷ xs) (suc i) zero v h = refl
get_elem?-set_ne (x ∷ xs) (suc i) (suc j) v h = get_elem?-set_ne xs i j v (λ e. h (ap suc e))

-- What lies before or behind the bytes that were written stays.
pub get-write_at_out :
    (buf : Bytes) (at : ℕ) (bs : Bytes) (x : ℕ)
    → ((i : ℕ) → i < length bs → at + i ≢ x)
    → get_elem? (write_at buf at bs) x ≡ get_elem? buf x
unfolding write_at
get-write_at_out buf at [] x h = refl
get-write_at_out buf at (b ∷ bs) x h =
    get-write_at_out (set buf at b) (suc at) bs x (λ i l e. h (suc i) (omega arith) (omega arith))
    ∙ get_elem?-set_ne buf at x b (λ e. h 0 (omega arith) (omega arith))

-- The bytes that were written.
pub get-write_at_in :
    (buf : Bytes) (at : ℕ) (bs : Bytes) (i : ℕ)
    → at + length bs ≤ length buf
    → i < length bs
    → get_elem? (write_at buf at bs) (at + i) ≡ get_elem? bs i
unfolding write_at
get-write_at_in buf at [] i h l = absurd (omega arith)
get-write_at_in buf at (b ∷ bs) zero h l =
    let here : at + 0 ≡ at = omega arith in
    rw here (
      get-write_at_out (set buf at b) (suc at) bs at (λ i l e. omega arith)
      ∙ get_elem?-set_self buf at b (omega arith))
get-write_at_in buf at (b ∷ bs) (suc i) h l =
    let there : at + suc i ≡ suc at + i = omega arith in
    rw there (
      get-write_at_in (set buf at b) (suc at) bs i (omega (arith, length-set buf at b))
        (omega arith))

get-drop : (n : ℕ) (xs : Bytes) (i : ℕ) → get_elem? (drop n xs) i ≡ get_elem? xs (n + i)
get-drop zero xs i = let e : 0 + i ≡ i = omega arith in rw e
get-drop (suc n) [] i = refl
get-drop (suc n) (x ∷ xs) i =
    let e : suc n + i ≡ suc (n + i) = omega arith in rw e (get-drop n xs i)

get-take : (n : ℕ) (xs : Bytes) (i : ℕ) → i < n → get_elem? (take n xs) i ≡ get_elem? xs i
get-take zero xs i h = absurd (omega arith)
get-take (suc n) [] i h = refl
get-take (suc n) (x ∷ xs) zero h = refl
get-take (suc n) (x ∷ xs) (suc i) h = get-take n xs i (omega arith)

pub get-append_left :
    (xs ys : Bytes) (i : ℕ) → i < length xs → get_elem? (xs ++ ys) i ≡ get_elem? xs i
get-append_left [] ys i h = absurd (omega arith)
get-append_left (x ∷ xs) ys zero h = refl
get-append_left (x ∷ xs) ys (suc i) h = get-append_left xs ys i (omega arith)

pub get-append_right :
    (xs ys : Bytes) (i : ℕ) → get_elem? (xs ++ ys) (length xs + i) ≡ get_elem? ys i
get-append_right [] ys i = let e : 0 + i ≡ i = omega arith in rw e
get-append_right (x ∷ xs) ys i =
    let e : suc (length xs) + i ≡ suc (length xs + i) = omega arith in
    rw e (get-append_right xs ys i)

-- A copy out of the buffer.
pub slice-some :
    (buf : Bytes) (at n : ℕ) → at + n ≤ length buf → (bs : Bytes) × (slice buf at n ≡ some bs)
unfolding slice
slice-some buf at n h = (take n (drop at buf), ground arith)

pub slice-get :
    (buf : Bytes) (at n : ℕ) (bs : Bytes)
    → slice buf at n ≡ some bs
    → (length bs ≡ n) × ((i : ℕ) → i < n → get_elem? bs i ≡ get_elem? buf (at + i))
unfolding slice
slice-get buf at n bs h =
    let fits : at + n ≤ length buf = ground arith in
    let same : take n (drop at buf) ≡ bs = ground arith in
    (
      ap length (sym same) ∙ (length-take n (drop at buf) ∙ omega (arith, length-drop at buf)),
      λ i l.
          ap (λ x. get_elem? x i) (sym same) ∙ (get-take n (drop at buf) i l ∙ get-drop at buf i),
    )

-- A list is the beginning of another that agrees with it as far as it goes.
pub prefix_of_get :
    (xs ys : Bytes)
    → length xs ≤ length ys
    → ((i : ℕ) → i < length xs → get_elem? xs i ≡ get_elem? ys i)
    → (rest : Bytes) × (xs ++ rest ≡ ys)
prefix_of_get [] ys h e = (ys, refl)
prefix_of_get (x ∷ xs) [] h e = absurd (omega arith)
prefix_of_get (x ∷ xs) (y ∷ ys) h e =
    let (rest, p) = prefix_of_get xs ys (omega arith) (λ i l. e (suc i) (omega arith)) in
    let first : x ≡ y = cc (e 0 (omega arith)) in (rest, cc)
