-- ===== src/Cli/Text.antt =====
-- What lekv_cli.cpp takes of the standard library's text functions: words of a stream, unsigned
-- decimal numbers, and `find` in a loop that splits a word at its colons.
use le_kv.Base.{
  ℕ, ◌+◌, ◌-◌, Bool, true, false, ◌&&◌, ◌||◌, Option, none, some, List, [], ◌∷◌, ◌++◌, ◌==◌, ltb,
  leb, if◌then◌else◌, ◌>>=◌,
}
use le_kv.Bytes.{Bytes}
use le_kv.Bytes.Endian.{u16, u64}
use le_kv.Dispatch.Decimal.{value_from}

-- isspace: blank, and \t \n \v \f \r.
abbrev pub is_space : ℕ → Bool
is_space b = (b == 32) || (leb 9 b && leb b 13)

-- The words that `>>` reads from a stream, after the bytes of a word that it has begun.
unfoldable pub words_from : Bytes → Bytes → List Bytes
words_from [] [] = []
words_from (w ∷ word) [] = (w ∷ word) ∷ []
words_from word (b ∷ bs) = elim (is_space b) [
  | false ↦ words_from (word ++ (b ∷ [])) bs
  | true ↦ elim word [ [] ↦ words_from [] bs | w ∷ ws ↦ (w ∷ ws) ∷ words_from [] bs ]
]

unfoldable pub skip_spaces : Bytes → Bytes
skip_spaces [] = []
skip_spaces (b ∷ bs) = let rest = skip_spaces bs in if is_space b then rest else b ∷ bs

abbrev pub is_digit : ℕ → Bool
is_digit b = leb b'0' b && leb b b'9'

-- The digits that a text begins with, and the rest.
unfoldable pub span_digits : Bytes → Bytes × Bytes
span_digits [] = ([], [])
span_digits (b ∷ bs) =
    let (ds, rest) = span_digits bs in if is_digit b then (b ∷ ds, rest) else ([], b ∷ bs)

-- A text that begins with digits, after a sign: whether it was a minus, the number that they stand
-- for, and what follows them; `none` if there are none.
abbrev pub digits_number : Bool → Bytes × Bytes → Option (Bool × ℕ × Bytes)
digits_number negative ([], rest) = none
digits_number negative (d ∷ ds, rest) = some (negative, value_from 0 (d ∷ ds), rest)

-- After the blanks: a sign, which may be missing, and digits.
unfoldable pub signed_number : Bytes → Option (Bool × ℕ × Bytes)
signed_number [] = none
signed_number (b ∷ bs) =
    if b == b'-'
    then digits_number true (span_digits bs)
    else if b == b'+'
    then digits_number false (span_digits bs)
    else digits_number false (span_digits (b ∷ bs))

-- A number of 64 bits, read by `>>` or stoull, and what follows it. A minus negates it modulo 2^64.
unfoldable pub read_unsigned : Bytes → Option (ℕ × Bytes)
unfolding signed_number
read_unsigned text = do
  r ← signed_number (skip_spaces text)
  if leb 18446744073709551616 r.1
      then none
      else some (if r.0 then u64 (18446744073709551616 - r.1) else r.1, r.2)

-- stoi, cast to 16 bits: an `int` has 32.
unfoldable pub read_port : Bytes → Option ℕ
unfolding signed_number
read_port text = do
  r ← signed_number (skip_spaces text)
  if ltb (if r.0 then 2147483648 else 2147483647) r.1
      then none
      else some (if r.0 then u16 (4294967296 - r.1) else u16 r.1)

-- The word that `>>` reads after the blanks, empty if there is none, and what follows it.
unfoldable pub span_word : Bytes → Bytes × Bytes
span_word [] = ([], [])
span_word (b ∷ bs) =
    let (word, rest) = span_word bs in if is_space b then ([], b ∷ bs) else (b ∷ word, rest)

abbrev pub read_word : Bytes → Bytes × Bytes
read_word text = span_word (skip_spaces text)

-- ::tolower of a byte.
abbrev pub to_lower : ℕ → ℕ
to_lower b = if leb b'A' b && leb b b'Z' then b + 32 else b

-- `==` of strings.
unfoldable pub eq_bytes : Bytes → Bytes → Bool
eq_bytes [] [] = true
eq_bytes [] (y ∷ ys) = false
eq_bytes (x ∷ xs) [] = false
eq_bytes (x ∷ xs) (y ∷ ys) = (x == y) && eq_bytes xs ys

-- The text from its first byte that is not `b` on, if there is one, as find_first_not_of and substr
-- give it; else the text as it is.
unfoldable pub from_first_not : ℕ → Bytes → Option Bytes
from_first_not b [] = none
from_first_not b (x ∷ xs) = if x == b then from_first_not b xs else some (x ∷ xs)

-- The part of an address before its first colon and the part after it, if there is one.
unfoldable pub split_at_colon : Bytes → Option (Bytes × Bytes)
split_at_colon [] = none
split_at_colon (b ∷ bs) =
    let more = split_at_colon bs in
    if b == b':' then some ([], bs) else do parts ← more; some (b ∷ parts.0, parts.1)

-- A byte in front of the first part.
abbrev pub attach : ℕ → List Bytes → List Bytes
attach b [] = (b ∷ []) ∷ []
attach b (p ∷ parts) = (b ∷ p) ∷ parts

-- The loop of FetchRouteTable that splits a segment at its colons.
unfoldable pub split_colons : Bytes → List Bytes
split_colons [] = [] ∷ []
split_colons (b ∷ bs) =
    let parts = split_colons bs in if b == b':' then [] ∷ parts else attach b parts
