-- ===== src/Storage/Delete.antt =====
-- DeleteRange removes the keys of its interval and no others.
use le_kv.Base.{
  Bool, true, false, none, some, List, [], ◌∷◌, ◌++◌, ◌≡◌, refl, sym, ◌∙◌, if◌then◌else◌, arith,
  Bool-cases, Option-cases, inl, inr, map, append_assoc, append-nil,
}
use le_kv.Bytes.{Bytes, in_range}
use le_kv.Storage.{collect_keys, delete_all, delete_range, get, delete}
use le_kv.Storage.Api.{LevelDb, Entry, eq_bytes, find}
use le_kv.Storage.Entries.{eq_bytes→eq, eq_bytes_refl}
use le_kv.Storage.Range.{upto, entries_in, entries_in-IsRange}

collect_keys-upto :
    (stop : Bytes) (xs : List Entry) (keys : List Bytes)
    → collect_keys stop xs keys ≡ keys ++ map (λ e. e.0) (upto stop xs)
unfolding collect_keys upto
collect_keys-upto stop [] keys = sym (append-nil keys)
collect_keys-upto stop ((k, v) ∷ rest) keys = ground (
  arith,
  collect_keys-upto stop rest (keys ++ (k ∷ [])),
  append-nil keys,
  append_assoc keys (k ∷ []) (map (λ e. e.0) (upto stop rest)),
)

-- Whether some entry has the key.
abbrev has_key : Bytes → List Entry → Bool
has_key k es = elim (find k es) [ none ↦ false | some v ↦ true ]

module _ (level : LevelDb) where
  -- Deletions, failed or not, leave the keys alone that are not among them.
  get-delete_all_ne :
      (k : Bytes) (es : List Entry) (d : level.Db)
      → find k es ≡ none
      → level.get (delete_all level (map (λ e. e.0) es) d) k ≡ level.get d k
  unfolding delete_all find
  get-delete_all_ne k [] d h = refl
  get-delete_all_ne k ((j, v) ∷ es) d h =
      get-delete_all_ne k es (level.delete d j).1 (ground arith)
      ∙ level.get-delete_ne d j k (λ e. ground (arith, eq_bytes_refl j))

  -- A key that is not there stays away.
  get-delete_all-none :
      (k : Bytes) (es : List Entry) (d : level.Db)
      → ((d : level.Db) (k : Bytes) → (level.delete d k).0 ≡ true)
      → level.get d k ≡ none
      → level.get (delete_all level (map (λ e. e.0) es) d) k ≡ none
  unfolding delete_all
  get-delete_all-none k [] d all h = h
  get-delete_all-none k ((j, v) ∷ es) d all h =
      get-delete_all-none k es (level.delete d j).1 all (elim (Bool-cases (eq_bytes j k)) [
        | inl e ↦ rw (eq_bytes→eq j k e) (level.get-delete_self d k (all d k))
        | inr e ↦ level.get-delete_ne d j k (λ p. ground (arith, eq_bytes_refl j)) ∙ h
      ])

  get-delete_all_self :
      (k v : Bytes) (es : List Entry) (d : level.Db)
      → ((d : level.Db) (k : Bytes) → (level.delete d k).0 ≡ true)
      → find k es ≡ some v
      → level.get (delete_all level (map (λ e. e.0) es) d) k ≡ none
  unfolding delete_all find
  get-delete_all_self k v [] d all h = cc
  get-delete_all_self k v ((j, w) ∷ es) d all h = elim (Bool-cases (eq_bytes j k)) [
    | inl e ↦
        get-delete_all-none k es (level.delete d j).1 all
          (rw (eq_bytes→eq j k e) (level.get-delete_self d k (all d k)))
    | inr e ↦ get-delete_all_self k v es (level.delete d j).1 all (ground arith)
  ]

  -- DeleteRange, whatever the statuses of its deletions, changes no key outside [start, stop).
  pub delete_range_outside :
      (d : level.Db) (start stop k : Bytes)
      → in_range start stop k ≡ false
      → get level (delete_range level d start stop).1 k ≡ get level d k
  unfolding delete_range get entries_in
  delete_range_outside d start stop k out = rw (collect_keys-upto stop (level.seek d start) []) (
      get-delete_all_ne k (entries_in level d start stop) d
        (ground (arith, (entries_in-IsRange level d start stop).holds k)))

  -- If every deletion succeeds, DeleteRange removes exactly the keys of [start, stop): no other key
  -- changes.
  pub get-delete_range :
      (d : level.Db) (start stop k : Bytes)
      → ((d : level.Db) (k : Bytes) → (delete level d k).0 ≡ true)
      → get level (delete_range level d start stop).1 k
        ≡ (if in_range start stop k then none else get level d k)
  unfolding delete_range get delete entries_in
  get-delete_range d start stop k all =
      let es = entries_in level d start stop in
      let holds = (entries_in-IsRange level d start stop).holds k in
      rw (collect_keys-upto stop (level.seek d start) []) (elim (Option-cases (find k es)) [
        | inl e ↦ get-delete_all_ne k es d e ∙ ground (arith, holds)
        | inr (v, e) ↦ get-delete_all_self k v es d all e ∙ ground (arith, holds)
      ])
