-- ===== src/Queue/Ceil.antt =====
-- bit_ceil rounds up to a power of two.
use Prim.Native.Nat.{bit_or}
use native.Mathlib.Nat.{pow-suc, pow-succ', div-div-eq-div-mul, pow-le-pow_right}
use le_kv.Base.{
  ℕ, zero, suc, ◌+◌, ◌-◌, ◌*◌, ◌/◌, ◌%◌, ◌^◌, ◌<◌, ◌≤◌, ◌≡◌, refl, ap, sym, ◌∙◌, arith, true, false,
  ltb, leb, Bool-cases, inl, inr,
}
use le_kv.Queue.{smear, bit_ceil}
use le_kv.Queue.Bits.{or_half, or_last, or_nothing, nothing_or, or_assoc}

-- A word that holds n and every shift of n by less than m.
spread : ℕ → ℕ → ℕ
spread zero n = 0
spread (suc m) n = bit_or n (spread m (n / 2))

spread_zero : (m : ℕ) → spread m 0 ≡ 0
unfolding spread
spread_zero zero = refl
spread_zero (suc m) = nothing_or (spread m 0) ∙ spread_zero m

half-spread : (m n : ℕ) → spread m n / 2 ≡ spread m (n / 2)
unfolding spread
half-spread zero n = refl
half-spread (suc m) n = or_half n (spread m (n / 2)) ∙ ap (bit_or (n / 2)) (half-spread m (n / 2))

-- Shifting once more.
shift_suc : (k n : ℕ) → n / 2 ^ suc k ≡ n / 2 ^ k / 2
shift_suc k n = rw (pow-suc 2 k) (sym (div-div-eq-div-mul n (2 ^ k) 2))

half_first : (k n : ℕ) → n / 2 ^ suc k ≡ n / 2 / 2 ^ k
half_first k n = rw (pow-succ' 2 k) (sym (div-div-eq-div-mul n 2 (2 ^ k)))

whole : (n : ℕ) → n / 2 ^ 0 ≡ n
whole n = omega arith

shift-spread : (k m n : ℕ) → spread m n / 2 ^ k ≡ spread m (n / 2 ^ k)
shift-spread zero m n = whole (spread m n) ∙ ap (spread m) (sym (whole n))
shift-spread (suc k) m n =
    shift_suc k (spread m n)
    ∙ (ap (λ x. x / 2) (shift-spread k m n)
        ∙ (half-spread m (n / 2 ^ k) ∙ ap (spread m) (sym (shift_suc k n))))

spread-add : (a b n : ℕ) → spread (a + b) n ≡ bit_or (spread a n) (spread b (n / 2 ^ a))
unfolding spread
spread-add zero b n =
    let none_more : 0 + b ≡ b = omega arith in
    rw (none_more, whole n) (sym (nothing_or (spread b n)))
spread-add (suc a) b n =
    let more : suc a + b ≡ suc (a + b) = omega arith in
    rw (more, half_first a n)
      (ap (bit_or n) (spread-add a b (n / 2))
        ∙ sym (or_assoc n (spread a (n / 2)) (spread b (n / 2 / 2 ^ a))))

-- One round of the loop doubles the spread.
spread_twice : (s n : ℕ) → bit_or (spread s n) (spread s n / 2 ^ s) ≡ spread (s + s) n
spread_twice s n = ap (bit_or (spread s n)) (shift-spread s s n) ∙ sym (spread-add s s n)

spread_one : (n : ℕ) → spread 1 n ≡ n
unfolding spread
spread_one n = or_nothing n n (omega arith)

smear_round :
    (left s n : ℕ)
    → ltb s 64 ≡ true
    → smear (suc left) s (spread s n) ≡ smear left (s * 2) (spread (s * 2) n)
unfolding smear
smear_round left s n h =
    let double : s + s ≡ s * 2 = omega arith in
    rw (h, smear) (ap (smear left (s * 2)) (spread_twice s n ∙ ap (λ k. spread k n) double))

-- The loop ends at 64, with fuel left.
smear-eq-spread : (n : ℕ) → smear 7 1 n ≡ spread 64 n
unfolding smear
smear-eq-spread n =
    ap (smear 7 1) (sym (spread_one n))
    ∙ (smear_round 6 1 n refl
        ∙ (smear_round 5 2 n refl
            ∙ (smear_round 4 4 n refl
                ∙ (smear_round 3 8 n refl ∙ (smear_round 2 16 n refl ∙ smear_round 1 32 n refl)))))

-- The last digit is set as soon as any digit below the m-th is.
spread-last : (m n : ℕ) → 0 < n → n < 2 ^ m → spread m n % 2 ≡ 1
unfolding spread
spread-last zero n p h = absurd (omega arith)
spread-last (suc m) n p h = elim (Bool-cases (ltb 1 n)) [
  | inl large ↦ omega (
    arith,
    or_last n (spread m (n / 2)),
    pow-suc 2 m,
    spread-last m (n / 2) (ground arith) (omega (arith, pow-suc 2 m)),
  )
  | inr small ↦ let one : n ≡ 1 = ground arith in omega (arith, or_last n (spread m (n / 2)))
]

-- The word below the next power of two.
spread_ones :
    (w m n : ℕ)
    → n ≤ w
    → 0 < n
    → n < 2 ^ m
    → (k : ℕ) × (spread m n + 1 ≡ 2 ^ k) × (n < 2 ^ k) × (2 ^ k ≤ 2 * n)
spread_ones zero m n f p h = absurd (omega arith)
spread_ones (suc w) m n f p h = elim (Bool-cases (ltb 1 n)) [
  | inl large ↦
      let two_or_more : 1 < n = ground arith in
      let (k, e, l, u) = spread_ones w m (n / 2) (omega arith) (omega arith) (omega arith) in
      (
        suc k,
        omega (arith, pow-suc 2 k, half-spread m n, spread-last m n p h),
        omega (arith, pow-suc 2 k),
        omega (arith, pow-suc 2 k),
      )
  | inr small ↦
      let one : n ≡ 1 = ground arith in
      let nothing : spread m (n / 2) ≡ 0 = rw one (spread_zero m) in
      (1, omega (arith, half-spread m n, spread-last m n p h), omega arith, omega arith)
]

power_bound : (k : ℕ) → 2 ^ k < 18446744073709551616 → k < 64
power_bound k h = elim (Bool-cases (ltb k 64)) [
  | inl small ↦ ground arith
  | inr large ↦
      let more : 2 ^ 64 ≤ 2 ^ k = pow-le-pow_right (omega arith) {i = 64} {j = k} (ground arith) in
      absurd (omega arith)
]

bit_ceil_large :
    (n k : ℕ)
    → n ≤ 2 ^ 63
    → leb n 1 ≡ false
    → spread 64 (n - 1) + 1 ≡ 2 ^ k
    → 2 ^ k ≤ 2 * (n - 1)
    → bit_ceil n ≡ 2 ^ k
unfolding bit_ceil
bit_ceil_large n k h large e u = rw (large, smear-eq-spread (n - 1), e) (omega arith)

bit_ceil_small : (n : ℕ) → leb n 1 ≡ true → bit_ceil n ≡ 1
unfolding bit_ceil
bit_ceil_small n small = rw small

-- For every size up to 2^63, bit_ceil gives a power of two below 2^64 that is no smaller than the
-- size and less than twice as large.
pub bit_ceil_power :
    (n : ℕ)
    → n ≤ 2 ^ 63
    → (k : ℕ) × (bit_ceil n ≡ 2 ^ k) × (k < 64) × (n ≤ 2 ^ k) × ((0 < n) → 2 ^ k < 2 * n)
bit_ceil_power n h = elim (Bool-cases (leb n 1)) [
  | inl small ↦ (0, bit_ceil_small n small, omega arith, ground arith, λ p. omega arith)
  | inr large ↦
      let two_or_more : 1 < n = ground arith in
      let (k, e, l, u) = spread_ones n 64 (n - 1) (omega arith) (omega arith) (omega arith) in
      (
        k,
        bit_ceil_large n k h large e u,
        power_bound k (omega arith),
        omega arith,
        λ p. omega arith,
      )
]
