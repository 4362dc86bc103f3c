-- ===== src/Queue/Bits.antt =====
-- `|`, `&` and `>>` on unsigned words, as arithmetic.
use Prim.Native.Nat.{max, digits, bit_and, bit_or, bit_and-bitwise, bit_or-bitwise}
use native.Mathlib.Nat.{pow-suc, one-le-pow, mod-lt, div-add-mod'}
use le_kv.Base.{
  ℕ, zero, suc, min, ◌+◌, ◌-◌, ◌*◌, ◌/◌, ◌%◌, ◌^◌, ◌<◌, ◌≤◌, ◌≡◌, refl, ap, sym, ◌∙◌, arith,
}

-- More fuel than digits changes nothing.
module _ (z : ℕ → ℕ) (f : ℕ → ℕ → ℕ) where
  digits_more : (m n a b : ℕ) → a ≤ m → a ≤ n → digits z f m a b ≡ digits z f n a b
  digits_more m n zero b h k = digits_none m n b
    where
      digits_none : (m n b : ℕ) → digits z f m 0 b ≡ digits z f n 0 b
      digits_none zero zero b = refl
      digits_none zero (suc n) b = refl
      digits_none (suc m) zero b = refl
      digits_none (suc m) (suc n) b = refl
  digits_more zero n (suc a) b h k = absurd (omega arith)
  digits_more (suc m) zero (suc a) b h k = absurd (omega arith)
  digits_more (suc m) (suc n) (suc a) b h k =
      omega (arith, digits_more m n (suc a / 2) (b / 2) (omega arith) (omega arith))

-- The lowest digit, and the others.
pub or_digit : (a b : ℕ) → bit_or a b ≡ bit_or (a / 2) (b / 2) * 2 + max (a % 2) (b % 2)
or_digit zero b = omega (arith, bit_or-bitwise 0 b, bit_or-bitwise 0 (b / 2))
or_digit (suc a) b = omega (
  arith,
  bit_or-bitwise (suc a) b,
  bit_or-bitwise (suc a / 2) (b / 2),
  digits_more (λ y. y) max a (suc a / 2) (suc a / 2) (b / 2) (omega arith) (omega arith),
)

pub and_digit : (a b : ℕ) → bit_and a b ≡ bit_and (a / 2) (b / 2) * 2 + min (a % 2) (b % 2)
and_digit zero b = omega (arith, bit_and-bitwise 0 b, bit_and-bitwise 0 (b / 2))
and_digit (suc a) b = omega (
  arith,
  bit_and-bitwise (suc a) b,
  bit_and-bitwise (suc a / 2) (b / 2),
  digits_more (λ y. 0) min a (suc a / 2) (suc a / 2) (b / 2) (omega arith) (omega arith),
)

and_nothing : (w a : ℕ) → a ≤ w → bit_and a 0 ≡ 0
and_nothing w zero h = omega (arith, bit_and-bitwise 0 0)
and_nothing zero (suc a) h = absurd (omega arith)
and_nothing (suc w) (suc a) h =
    omega (arith, and_digit (suc a) 0, and_nothing w (suc a / 2) (omega arith))

twice_pow : (q k : ℕ) → q * 2 ^ suc k ≡ 2 * (q * 2 ^ k)
twice_pow q k = omega (arith, ap (λ (t : ℕ). q * t) (pow-suc 2 k))

-- A mask of k ones keeps the remainder by 2 ^ k.
and_ones : (k q r : ℕ) → r < 2 ^ k → bit_and (q * 2 ^ k + r) (2 ^ k - 1) ≡ r
and_ones zero q r h =
    let none_left : r ≡ 0 = omega arith in
    and_nothing (q * 1 + r) (q * 1 + r) (omega arith) ∙ sym none_left
and_ones (suc k) q r h =
    let double = twice_pow q k in
    let modulus = pow-suc 2 k in
    let some_ones = one-le-pow k 2 (omega arith) in
    let upper : (q * 2 ^ suc k + r) / 2 ≡ q * 2 ^ k + r / 2 = omega arith in
    let ones : (2 ^ suc k - 1) / 2 ≡ 2 ^ k - 1 = omega arith in
    let lowest : (2 ^ suc k - 1) % 2 ≡ 1 = omega arith in
    let last : (q * 2 ^ suc k + r) % 2 ≡ r % 2 = omega arith in
    let rest = and_ones k q (r / 2) (omega arith) in
    and_digit (q * 2 ^ suc k + r) (2 ^ suc k - 1)
    ∙ rw (upper, ones, lowest, last, rest) (omega arith)

pub and_mask : (k a : ℕ) → bit_and a (2 ^ k - 1) ≡ a % 2 ^ k
and_mask k a =
    let some_ones = one-le-pow k 2 (omega arith) in
    rw (div-add-mod' a (2 ^ k)) at (and_ones k (a / 2 ^ k) (a % 2 ^ k) (mod-lt a some_ones))

pub or_half : (a b : ℕ) → bit_or a b / 2 ≡ bit_or (a / 2) (b / 2)
or_half a b = omega (arith, or_digit a b)

pub or_last : (a b : ℕ) → bit_or a b % 2 ≡ max (a % 2) (b % 2)
or_last a b = omega (arith, or_digit a b)

pub or_nothing : (w a : ℕ) → a ≤ w → bit_or a 0 ≡ a
or_nothing w zero h = omega (arith, bit_or-bitwise 0 0)
or_nothing zero (suc a) h = absurd (omega arith)
or_nothing (suc w) (suc a) h =
    omega (arith, or_digit (suc a) 0, or_nothing w (suc a / 2) (omega arith))

pub nothing_or : (b : ℕ) → bit_or 0 b ≡ b
nothing_or b = omega (arith, bit_or-bitwise 0 b)

or_assoc_below : (w a b c : ℕ) → a ≤ w → bit_or (bit_or a b) c ≡ bit_or a (bit_or b c)
or_assoc_below w zero b c h = rw (nothing_or b) (sym (nothing_or (bit_or b c)))
or_assoc_below zero (suc a) b c h = absurd (omega arith)
or_assoc_below (suc w) (suc a) b c h = omega (
  arith,
  or_digit (bit_or (suc a) b) c,
  or_digit (suc a) (bit_or b c),
  or_last (suc a) b,
  or_last b c,
  ap (λ x. bit_or x (c / 2)) (or_half (suc a) b),
  ap (bit_or (suc a / 2)) (or_half b c),
  or_assoc_below w (suc a / 2) (b / 2) (c / 2) (omega arith),
)

pub or_assoc : (a b c : ℕ) → bit_or (bit_or a b) c ≡ bit_or a (bit_or b c)
or_assoc a b c = or_assoc_below a a b c (omega arith)
