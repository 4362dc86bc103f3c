-- ===== src/Bytes/Order.antt =====
-- The order of keys is a decidable linear order with the empty string below all others.
use le_kv.Base.{[], ◌∷◌, ◌≡◌, refl, true, false, arith}
use le_kv.Bytes.{Bytes, lt_bytes}

pub lt_bytes_irrefl : (a : Bytes) → lt_bytes a a ≡ false
unfolding lt_bytes
lt_bytes_irrefl [] = refl
lt_bytes_irrefl (x ∷ xs) = ground (arith, lt_bytes_irrefl xs)

pub lt_bytes_asymm : (a b : Bytes) → lt_bytes a b ≡ true → lt_bytes b a ≡ false
unfolding lt_bytes
lt_bytes_asymm [] [] h = refl
lt_bytes_asymm (x ∷ xs) [] h = ground arith
lt_bytes_asymm [] (y ∷ ys) h = refl
lt_bytes_asymm (x ∷ xs) (y ∷ ys) h = ground (arith, lt_bytes_asymm xs ys)

pub lt_bytes_trans :
    (a b c : Bytes) → lt_bytes a b ≡ true → lt_bytes b c ≡ true → lt_bytes a c ≡ true
unfolding lt_bytes
lt_bytes_trans a b [] h k = ground arith
lt_bytes_trans a [] (z ∷ zs) h k = ground arith
lt_bytes_trans [] (y ∷ ys) (z ∷ zs) h k = refl
lt_bytes_trans (x ∷ xs) (y ∷ ys) (z ∷ zs) h k = ground (arith, lt_bytes_trans xs ys zs)

pub lt_bytes_connex : (a b : Bytes) → lt_bytes a b ≡ false → lt_bytes b a ≡ false → a ≡ b
unfolding lt_bytes
lt_bytes_connex [] [] h k = refl
lt_bytes_connex (x ∷ xs) [] h k = ground arith
lt_bytes_connex [] (y ∷ ys) h k = ground arith
lt_bytes_connex (x ∷ xs) (y ∷ ys) h k = ground (arith, lt_bytes_connex xs ys)

-- a ≤ b and b < c give a < c.
pub le_lt_trans : (a b c : Bytes) → lt_bytes b a ≡ false → lt_bytes b c ≡ true → lt_bytes a c ≡ true
unfolding lt_bytes
le_lt_trans a b [] h k = ground arith
le_lt_trans [] b (z ∷ zs) h k = refl
le_lt_trans (x ∷ xs) [] (z ∷ zs) h k = ground arith
le_lt_trans (x ∷ xs) (y ∷ ys) (z ∷ zs) h k = ground (arith, le_lt_trans xs ys zs)

-- a < b and b ≤ c give a < c.
pub lt_le_trans : (a b c : Bytes) → lt_bytes a b ≡ true → lt_bytes c b ≡ false → lt_bytes a c ≡ true
unfolding lt_bytes
lt_le_trans a [] c h k = ground arith
lt_le_trans [] (y ∷ ys) [] h k = ground arith
lt_le_trans (x ∷ xs) (y ∷ ys) [] h k = ground arith
lt_le_trans [] (y ∷ ys) (z ∷ zs) h k = refl
lt_le_trans (x ∷ xs) (y ∷ ys) (z ∷ zs) h k = ground (arith, lt_le_trans xs ys zs)

-- a ≤ b and b ≤ c give a ≤ c.
pub le_bytes_trans :
    (a b c : Bytes) → lt_bytes b a ≡ false → lt_bytes c b ≡ false → lt_bytes c a ≡ false
unfolding lt_bytes
le_bytes_trans [] [] c h k = ground arith
le_bytes_trans [] (y ∷ ys) c h k = ground arith
le_bytes_trans (x ∷ xs) [] c h k = ground arith
le_bytes_trans (x ∷ xs) (y ∷ ys) [] h k = ground arith
le_bytes_trans (x ∷ xs) (y ∷ ys) (z ∷ zs) h k = ground (arith, le_bytes_trans xs ys zs)

pub not-lt_bytes-nil : (a : Bytes) → lt_bytes a [] ≡ false
unfolding lt_bytes
not-lt_bytes-nil [] = refl
not-lt_bytes-nil (x ∷ xs) = refl
