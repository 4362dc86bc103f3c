-- ===== src/Cli/Numbers.antt =====
-- Decimal numbers that std::to_string writes are read back.
use le_kv.Base.{
  ℕ, zero, suc, ◌+◌, ◌/◌, ◌%◌, ◌<◌, ◌≤◌, Bool, true, false, some, [], ◌∷◌, ◌++◌, ◌==◌, ◌≡◌, refl,
  ap, ◌∙◌, arith, ltb, leb, Bool-cases, inl, inr, append-nil,
}
use le_kv.Bytes.{Bytes}
use le_kv.Dispatch.Decimal.{digits, to_string, value_from, value_from-to_string}
use le_kv.Cli.Text.{
  is_space, is_digit, skip_spaces, span_digits, signed_number, read_unsigned, read_port,
}

-- No byte passes a test.
abbrev pub Avoids : (ℕ → Bool) → Bytes → Type 0
Avoids p [] = Unit {0}
Avoids p (b ∷ bs) = (p b ≡ false) × Avoids p bs

pub Avoids-append : (p : ℕ → Bool) (xs ys : Bytes) → Avoids p xs → Avoids p ys → Avoids p (xs ++ ys)
Avoids-append p [] ys a b = b
Avoids-append p (x ∷ xs) ys a b = (a.0, Avoids-append p xs ys a.1 b)

abbrev pub AllDigits : Bytes → Type 0
AllDigits [] = Unit {0}
AllDigits (d ∷ ds) = (b'0' ≤ d) × (d ≤ b'9') × AllDigits ds

AllDigits-append : (xs ys : Bytes) → AllDigits xs → AllDigits ys → AllDigits (xs ++ ys)
AllDigits-append [] ys a b = b
AllDigits-append (x ∷ xs) ys a b = (a.0, a.1, AllDigits-append xs ys a.2 b)

digits-AllDigits : (fuel n : ℕ) → AllDigits (digits fuel n)
unfolding digits
digits-AllDigits zero n = tt
digits-AllDigits (suc fuel) n = elim (Bool-cases (ltb n 10)) [
  | inl small ↦ rw (small, digits) (omega arith, ground arith, tt)
  | inr big ↦
      rw (big, digits)
        (AllDigits-append (digits fuel (n / 10)) ((b'0' + n % 10) ∷ [])
          (digits-AllDigits fuel (n / 10)) (omega arith, omega arith, tt))
]

pub to_string-AllDigits : (n : ℕ) → AllDigits (to_string n)
unfolding to_string
to_string-AllDigits n = digits-AllDigits 20 n

-- A test that no digit passes is avoided by digits.
pub AllDigits-Avoids :
    (p : ℕ → Bool) (ds : Bytes)
    → ((d : ℕ) → b'0' ≤ d → d ≤ b'9' → p d ≡ false)
    → AllDigits ds
    → Avoids p ds
AllDigits-Avoids p [] h a = tt
AllDigits-Avoids p (d ∷ ds) h a = (h d a.0 a.1, AllDigits-Avoids p ds h a.2)

snoc_cons : (xs : Bytes) (x : ℕ) → (d : ℕ) × (ds : Bytes) × (xs ++ (x ∷ []) ≡ d ∷ ds)
snoc_cons [] x = (x, [], refl)
snoc_cons (y ∷ xs) x = (y, xs ++ (x ∷ []), refl)

-- There is a digit.
digits_cons : (fuel n : ℕ) → (d : ℕ) × (ds : Bytes) × (digits (suc fuel) n ≡ d ∷ ds)
unfolding digits
digits_cons fuel n = elim (Bool-cases (ltb n 10)) [
  | inl small ↦ (b'0' + n, [], rw (small, digits) refl)
  | inr big ↦
      let (d, ds, e) = snoc_cons (digits fuel (n / 10)) (b'0' + n % 10) in
      (d, ds, rw (big, digits) e)
]

-- What follows a number does not begin with a digit.
abbrev pub Ends : Bytes → Type 0
Ends [] = Unit {0}
Ends (b ∷ bs) = is_digit b ≡ false

span_digits-append :
    (ds rest : Bytes) → AllDigits ds → Ends rest → span_digits (ds ++ rest) ≡ (ds, rest)
unfolding span_digits
span_digits-append [] [] a e = refl
span_digits-append [] (b ∷ rest) a e = rw e refl
span_digits-append (d ∷ ds) rest a e =
    let digit : is_digit d ≡ true = ground arith in
    rw (digit, span_digits-append ds rest a.2 e) refl

signed_number-digits :
    (d : ℕ) (ds rest : Bytes)
    → AllDigits (d ∷ ds)
    → Ends rest
    → signed_number (skip_spaces ((d ∷ ds) ++ rest)) ≡ some (false, value_from 0 (d ∷ ds), rest)
unfolding signed_number skip_spaces
signed_number-digits d ds rest a e =
    let solid : is_space d ≡ false = ground arith in
    let plus : (d == b'+') ≡ false = ground arith in
    let minus : (d == b'-') ≡ false = ground arith in
    rw (solid, skip_spaces, plus, minus, signed_number, span_digits-append (d ∷ ds) rest a e) refl

-- A number of 64 bits that to_string wrote is read back, if no digit follows it.
signed_number-to_string :
    (n : ℕ) (rest : Bytes)
    → n < 18446744073709551616
    → Ends rest
    → signed_number (skip_spaces (to_string n ++ rest)) ≡ some (false, n, rest)
unfolding to_string
signed_number-to_string n rest h e =
    let (d, ds, c) = digits_cons 19 n in
    let all = rw c at (to_string-AllDigits n) in
    let value = rw c at (value_from-to_string n h) in
    rw c (signed_number-digits d ds rest all e ∙ ap (λ k. some (false, k, rest)) value)

pub read_unsigned-to_string :
    (n : ℕ) (rest : Bytes)
    → n < 18446744073709551616
    → Ends rest
    → read_unsigned (to_string n ++ rest) ≡ some (n, rest)
unfolding read_unsigned
read_unsigned-to_string n rest h e =
    let fits : leb 18446744073709551616 n ≡ false = ground arith in
    rw (signed_number-to_string n rest h e, fits) refl

-- A port is read back.
pub read_port-to_string : (n : ℕ) → n < 65536 → read_port (to_string n) ≡ some n
unfolding read_port
read_port-to_string n h =
    let read = rw (append-nil (to_string n)) at (signed_number-to_string n [] (omega arith) tt) in
    let fits : ltb 2147483647 n ≡ false = ground arith in rw (read, fits) (ap some (omega arith))
