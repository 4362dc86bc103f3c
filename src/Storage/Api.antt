-- ===== src/Storage/Api.antt =====
-- What the program relies on of LevelDB: its calls, and what the documentation says of them.
use le_kv.Base.{Bool, true, not, ◌&&◌, Option, none, some, List, [], ◌∷◌, ◌≡◌, ◌≢◌, if◌then◌else◌}
use le_kv.Bytes.{Bytes, lt_bytes, le_bytes}

-- A key with its value, as the iterator yields them.
abbrev pub Entry : Type 0
Entry = Bytes × Bytes

-- Every key of the list is above `k`.
abbrev pub AllAbove : Bytes → List Entry → Type 0
AllAbove k [] = Unit
AllAbove k ((j, v) ∷ r) = (lt_bytes k j ≡ true) × AllAbove k r

-- The keys go up.
abbrev pub IsAscending : List Entry → Type 0
IsAscending [] = Unit
IsAscending ((k, v) ∷ r) = AllAbove k r × IsAscending r

-- Neither of two keys is below the other.
abbrev pub eq_bytes : Bytes → Bytes → Bool
eq_bytes a b = not (lt_bytes a b) && not (lt_bytes b a)

-- The value that a list of entries has under a key.
unfoldable pub find : Bytes → List Entry → Option Bytes
find k [] = none
find k ((j, v) ∷ r) = if eq_bytes j k then some v else find k r

-- `put` and `delete` return whether their status is ok, `get` the value if its status is ok, and
-- `seek d start` the entries that an iterator made on `d` yields from `Seek(start)` on. An iterator that
-- meets an error, as on a corrupt file, is not modelled: it ends early, and only its status tells.
pub record LevelDb : Type 1 where
  pub Db : Type 0
  pub put : Db → Bytes → Bytes → Bool × Db
  pub get : Db → Bytes → Option Bytes
  pub delete : Db → Bytes → Bool × Db
  pub seek : Db → Bytes → List Entry
  -- A write that succeeds is read back.
  pub get-put_self : (d : Db) (k v : Bytes) → (put d k v).0 ≡ true → get (put d k v).1 k ≡ some v
  -- A write, failed or not, changes no other key.
  pub get-put_ne : (d : Db) (k v j : Bytes) → k ≢ j → get (put d k v).1 j ≡ get d j
  -- A deletion that succeeds removes the key.
  pub get-delete_self : (d : Db) (k : Bytes) → (delete d k).0 ≡ true → get (delete d k).1 k ≡ none
  -- A deletion, failed or not, changes no other key.
  pub get-delete_ne : (d : Db) (k j : Bytes) → k ≢ j → get (delete d k).1 j ≡ get d j
  -- The iterator yields keys in ascending order, and all entries from `start` on.
  pub seek-IsAscending : (d : Db) (start : Bytes) → IsAscending (seek d start)
  pub find-seek :
      (d : Db) (start k : Bytes)
      → find k (seek d start) ≡ (if le_bytes start k then get d k else none)
