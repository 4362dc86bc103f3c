-- ===== src/Dispatch/Decimal.antt =====
-- `std::to_string` of an unsigned integer of at most 64 bits: at most twenty decimal digits.
use le_kv.Base.{
  ℕ, zero, suc, ◌+◌, ◌-◌, ◌*◌, ◌/◌, ◌%◌, ◌^◌, ◌<◌, true, false, [], ◌∷◌, ◌++◌, ◌≡◌, refl, ◌∙◌,
  arith, Bool-cases, inl, inr, ltb,
}
use le_kv.Bytes.{Bytes}

-- The digits of a number with at most `fuel` digits.
unfoldable pub digits : ℕ → ℕ → Bytes
digits zero n = []
digits (suc fuel) n = elim (ltb n 10) [
  | true ↦ (b'0' + n) ∷ []
  | false ↦ digits fuel (n / 10) ++ ((b'0' + n % 10) ∷ [])
]

unfoldable pub to_string : ℕ → Bytes
unfolding digits
to_string n = digits 20 n

-- The number that digits stand for, after a number that was read before.
abbrev pub value_from : ℕ → Bytes → ℕ
value_from acc [] = acc
value_from acc (d ∷ ds) = value_from (acc * 10 + (d - b'0')) ds

value_from-append :
    (acc : ℕ) (xs ys : Bytes) → value_from acc (xs ++ ys) ≡ value_from (value_from acc xs) ys
value_from-append acc [] ys = refl
value_from-append acc (x ∷ xs) ys = value_from-append (acc * 10 + (x - b'0')) xs ys

digits_small : (fuel n : ℕ) → ltb n 10 ≡ true → digits (suc fuel) n ≡ (b'0' + n) ∷ []
unfolding digits
digits_small fuel n h = ground arith

digits_big :
    (fuel n : ℕ)
    → ltb n 10 ≡ false
    → digits (suc fuel) n ≡ digits fuel (n / 10) ++ ((b'0' + n % 10) ∷ [])
unfolding digits
digits_big fuel n h = ground arith

value_from-digits : (fuel n : ℕ) → n < 10 ^ fuel → value_from 0 (digits fuel n) ≡ n
unfolding digits
value_from-digits zero n h = omega arith
value_from-digits (suc fuel) n h = elim (Bool-cases (ltb n 10)) [
  | inl small ↦ rw (digits_small fuel n small) (omega arith)
  | inr big ↦ rw (digits_big fuel n big) (
      value_from-append 0 (digits fuel (n / 10)) ((b'0' + n % 10) ∷ [])
      ∙ rw (value_from-digits fuel (n / 10) (omega arith)) (omega arith))
]

-- Twenty digits are enough for 64 bits: the text stands for the number.
pub value_from-to_string : (n : ℕ) → n < 18446744073709551616 → value_from 0 (to_string n) ≡ n
unfolding to_string
value_from-to_string n h = value_from-digits 20 n (omega arith)
