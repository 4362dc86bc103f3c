-- ===== src/Bytes.antt =====
-- `std::string` and `std::vector<uint8_t>`: sequences of bytes, each a number below 256.
-- Strings compare as `std::string` does, and LevelDB's bytewise comparator: by unsigned bytes.
pub mod Order
pub mod Endian
use le_kv.Base.{ℕ, List, [], ◌∷◌, Bool, true, false, not, ◌&&◌, ◌||◌, ltb, if◌then◌else◌}

abbrev pub Bytes : Type 0
Bytes = List ℕ

-- `a < b` on strings.
unfoldable pub lt_bytes : Bytes → Bytes → Bool
lt_bytes a [] = false
lt_bytes [] (y ∷ ys) = true
lt_bytes (x ∷ xs) (y ∷ ys) = if ltb x y then true else if ltb y x then false else lt_bytes xs ys

-- `a <= b` on strings.
abbrev pub le_bytes : Bytes → Bytes → Bool
le_bytes a b = not (lt_bytes b a)

-- `s.empty()`
abbrev pub is_empty : Bytes → Bool
is_empty [] = true
is_empty (x ∷ xs) = false

-- The interval [start, end) of keys; an empty `end` is plus infinity.
abbrev pub in_range : Bytes → Bytes → Bytes → Bool
in_range start stop k = le_bytes start k && (is_empty stop || lt_bytes k stop)
