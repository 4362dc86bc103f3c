-- ===== src/Exec.antt =====
-- Methods that read and change an object, over its state. `none` is undefined behaviour (a read
-- outside a vector) or an exception that nothing catches.
use le_kv.Base.{Bool, true, false, Option, none, some, ◌≡◌, refl, ap, ◌⊎◌, inl, inr, if◌then◌else◌}

abbrev pub Exec {ℓ} : Type ℓ → Type ℓ → Type ℓ
Exec S A = S → Option (A × S)

module _ {ℓ} {S A : Type ℓ} where
  abbrev pub pure : A → Exec S A
  pure a s = some (a, s)

  abbrev pub lift : Option A → Exec S A
  lift none s = none
  lift (some a) s = some (a, s)

  abbrev pub gets : (S → A) → Exec S A
  gets f s = some (f s, s)

module _ {ℓ} {S A B : Type ℓ} where
  infixl 5 ◌>>=◌ ◌>>◌
  abbrev pub ◌>>=◌ : Exec S A → (A → Exec S B) → Exec S B
  ◌>>=◌ m f s = elim (m s) [ none ↦ none | some (a, s') ↦ f a s' ]

  abbrev pub ◌>>◌ : Exec S A → Exec S B → Exec S B
  m >> n = m >>= λ _. n

module _ {ℓ} {S A B : Type ℓ} where
  -- A bind whose first method returns goes on there.
  pub >>=-some :
      (m : Exec S A) (f : A → Exec S B) (s s1 : S) (a : A)
      → m s ≡ some (a, s1)
      → (m >>= f) s ≡ f a s1
  >>=-some m f s s1 a e =
      ap
        (λ (r : Option (A × S)). elim r as (λ _. Option (B × S)) [
          | none ↦ none
          | some (x, s') ↦ f x s'
        ])
        e

  -- Inversion of a bind that returns.
  pub >>=-eq-some :
      (m : Exec S A) (f : A → Exec S B) (s s' : S) (b : B)
      → (m >>= f) s ≡ some (b, s')
      → (a : A) × (s1 : S) × (m s ≡ some (a, s1)) × (f a s1 ≡ some (b, s'))
  >>=-eq-some m f s s' b e = go (m s) refl e
    where
      go :
          (r : Option (A × S))
          → m s ≡ r
          → (elim r [ none ↦ none | some (a, s1) ↦ f a s1 ]) ≡ some (b, s')
          → (a : A) × (s1 : S) × (m s ≡ some (a, s1)) × (f a s1 ≡ some (b, s'))
      go none p q = cc
      go (some (a, s1)) p q = (a, s1, p, q)

module _ {ℓ} {S A : Type ℓ} where
  -- Of an `if` that returns.
  pub if-eq-some :
      (c : Bool) (m n : Exec S A) (s : S) (r : A × S)
      → (if c then m else n) s ≡ some r
      → ((c ≡ true) × (m s ≡ some r)) ⊎ ((c ≡ false) × (n s ≡ some r))
  if-eq-some true m n s r e = inl (refl, e)
  if-eq-some false m n s r e = inr (refl, e)
