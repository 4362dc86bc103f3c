-- ===== src/Cluster/Stored.antt =====
-- What the databases of two nodes hold after the entries of a range went from one to the other.
use le_kv.Base.{
  true, false, Option, none, some, List, [], ◌∷◌, ◌≡◌, ◌≢◌, refl, ap, sym, ◌∙◌, arith,
  if◌then◌else◌, inl, inr, Bool-cases,
}
use le_kv.Bytes.{Bytes, in_range}
use le_kv.Bytes.Order.{lt_bytes_irrefl}
use le_kv.Storage.Api.{LevelDb, Entry, IsAscending, eq_bytes, find}
use le_kv.Storage.Entries.{eq_bytes→eq, eq_bytes_refl, find-AllAbove}
use le_kv.Storage.Range.{entries_in, entries_in-IsRange}
use le_kv.Cluster.Transfer.{PutsSucceed, put_all}

-- Every Delete of the database succeeds.
abbrev pub DeletesSucceed : LevelDb → Type 0
DeletesSucceed level = (d : level.Db) (k : Bytes) → (level.delete d k).0 ≡ true

-- The first value, or else the second.
abbrev pub or_else : Option Bytes → Option Bytes → Option Bytes
or_else none b = b
or_else (some v) b = some v

module _ (level : LevelDb) (puts : PutsSucceed level) where
  -- A database after ascending entries were put holds them, and what it held under other keys.
  get-put_all :
      (es : List Entry) (d : level.Db) (k : Bytes)
      → IsAscending es
      → level.get (put_all level d es) k ≡ or_else (find k es) (level.get d k)
  unfolding put_all find
  get-put_all [] d k a = refl
  get-put_all ((j, v) ∷ es) d k a = elim (Bool-cases (eq_bytes j k)) [
    | inl e ↦
        let same : j ≡ k = eq_bytes→eq j k e in
        let later = get-put_all es (level.put d j v).1 k a.1 in
        let gone : find k es ≡ none = rw same at (find-AllAbove j j es a.0 (lt_bytes_irrefl j)) in
        let stored : level.get (level.put d j v).1 k ≡ some v =
          ap (level.get (level.put d j v).1) (sym same) ∙ level.get-put_self d j v (puts d j v) in
        ground (arith, later, gone, stored, e)
    | inr ne ↦
        let later = get-put_all es (level.put d j v).1 k a.1 in
        let kept = level.get-put_ne d j v k (differ j k ne) in ground (arith, later, kept, ne)
  ]
    where
      differ : (j k : Bytes) → eq_bytes j k ≡ false → j ≢ k
      differ j k ne e = let same : eq_bytes j k ≡ true = rw e (eq_bytes_refl k) in cc

  module _ (d_src d_dst : level.Db) (start stop : Bytes) where
    -- The destination holds the range's entries of the source, and what it held before elsewhere.
    pub get_moved :
        (k : Bytes)
        → level.get (put_all level d_dst (entries_in level d_src start stop)) k ≡ (
            if in_range start stop k
            then or_else (level.get d_src k) (level.get d_dst k)
            else level.get d_dst k)
    get_moved k =
        let r = entries_in-IsRange level d_src start stop in
        let holds = r.holds k in
        get-put_all (entries_in level d_src start stop) d_dst k (r.ascending)
        ∙ ap (λ x. or_else x (level.get d_dst k)) holds
        ∙ elim (Bool-cases (in_range start stop k)) [
          | inl inside ↦ rw inside refl
          | inr outside ↦ rw outside refl
        ]
