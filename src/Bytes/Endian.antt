-- ===== src/Bytes/Endian.antt =====
-- Integers in network byte order: `htons`, `htonl` and the bytes that the code appends, and the
-- reads through `ntohs`, `ntohl`. A read or a copy past the end of the vector is undefined in the
-- source and is `none` here.
use le_kv.Base.{
  ℕ, zero, suc, ◌+◌, ◌*◌, ◌/◌, ◌%◌, ◌<◌, ◌≡◌, refl, ap, Option, none, some, [], ◌∷◌, ◌++◌, arith,
  leb, if◌then◌else◌, length, take, drop, length-append,
}
use le_kv.Bytes.{Bytes}

-- The casts to `uint8_t`, `uint16_t` and `uint32_t`.
abbrev pub u8 : ℕ → ℕ
u8 n = n % 256

abbrev pub u16 : ℕ → ℕ
u16 n = n % 65536

abbrev pub u32 : ℕ → ℕ
u32 n = n % 4294967296

abbrev pub u64 : ℕ → ℕ
u64 n = n % 18446744073709551616

-- The two bytes of `htons(n)`.
abbrev pub be16 : ℕ → Bytes
be16 n = n / 256 % 256 ∷ n % 256 ∷ []

-- The four bytes of `htonl(n)`.
abbrev pub be32 : ℕ → Bytes
be32 n = n / 16777216 % 256 ∷ n / 65536 % 256 ∷ n / 256 % 256 ∷ n % 256 ∷ []

-- The first two bytes as a number.
abbrev pub head16 : Bytes → Option ℕ
head16 (a ∷ b ∷ r) = some (a * 256 + b)
head16 r = none

-- The first four bytes as a number.
abbrev pub head32 : Bytes → Option ℕ
head32 (a ∷ b ∷ c ∷ d ∷ r) = some (a * 16777216 + b * 65536 + c * 256 + d)
head32 r = none

-- `ntohs(*(uint16_t*)(buf.data() + i))`
unfoldable pub read16 : Bytes → ℕ → Option ℕ
read16 buf i = head16 (drop i buf)

-- `ntohl(*(uint32_t*)(buf.data() + i))`
unfoldable pub read32 : Bytes → ℕ → Option ℕ
read32 buf i = head32 (drop i buf)

-- The bytes from `buf.begin() + i` to `buf.begin() + i + n`.
unfoldable pub slice : Bytes → ℕ → ℕ → Option Bytes
slice buf i n = if leb (i + n) (length buf) then some (take n (drop i buf)) else none

pub head16-be16 : (n : ℕ) (r : Bytes) → n < 65536 → head16 (be16 n ++ r) ≡ some n
head16-be16 n r h = ap some (omega arith)

pub head32-be32 : (n : ℕ) (r : Bytes) → n < 4294967296 → head32 (be32 n ++ r) ≡ some n
head32-be32 n r h = ap some (omega arith)

-- Reads past a prefix of known length.
pub drop_past : (i : ℕ) (xs ys : Bytes) → i ≡ length xs → drop i (xs ++ ys) ≡ ys
drop_past zero [] ys h = refl
drop_past zero (x ∷ xs) ys h = absurd (omega arith)
drop_past (suc i) [] ys h = absurd (omega arith)
drop_past (suc i) (x ∷ xs) ys h = drop_past i xs ys (omega arith)

pub take_past : (n : ℕ) (xs ys : Bytes) → n ≡ length xs → take n (xs ++ ys) ≡ xs
take_past zero [] ys h = refl
take_past zero (x ∷ xs) ys h = absurd (omega arith)
take_past (suc i) [] ys h = absurd (omega arith)
take_past (suc i) (x ∷ xs) ys h = ap (◌∷◌ x) (take_past i xs ys (omega arith))

pub slice_past :
    (i n : ℕ) (xs ys zs : Bytes)
    → i ≡ length xs
    → n ≡ length ys
    → slice (xs ++ (ys ++ zs)) i n ≡ some ys
unfolding slice
slice_past i n xs ys zs p q = ground (
  arith,
  length-append xs (ys ++ zs),
  length-append ys zs,
  drop_past i xs (ys ++ zs),
  take_past n ys zs,
)

pub read16_past :
    (i n : ℕ) (xs zs : Bytes) → i ≡ length xs → n < 65536 → read16 (xs ++ (be16 n ++ zs)) i ≡ some n
unfolding read16
read16_past i n xs zs p q = rw (drop_past i xs (be16 n ++ zs) p) (head16-be16 n zs q)

pub read32_past :
    (i n : ℕ) (xs zs : Bytes)
    → i ≡ length xs
    → n < 4294967296
    → read32 (xs ++ (be32 n ++ zs)) i ≡ some n
unfolding read32
read32_past i n xs zs p q = rw (drop_past i xs (be32 n ++ zs) p) (head32-be32 n zs q)
