-- ===== src/Storage/Range.antt =====
-- RangeQuery and RangeStats against the entries of the interval.
use le_kv.Base.{
  Bool, not, ◌&&◌, Option, none, List, [], ◌∷◌, ◌++◌, ◌≡◌, refl, ap, sym, ◌∙◌, if◌then◌else◌, arith,
  Bool-cases, inl, inr, map, append_assoc, append-nil,
}
use le_kv.Bytes.{Bytes, le_bytes, is_empty, in_range}
use le_kv.Bytes.Order.{lt_bytes_asymm, lt_bytes_connex, le_bytes_trans}
use le_kv.Storage.{query_loop, push_key, Stats, stats_of_keys, range_query, range_stats}
use le_kv.Storage.Api.{LevelDb, Entry, AllAbove, IsAscending, find}
use le_kv.Storage.Entries.{eq_bytes→eq, find-AllAbove, ascending_ext}

-- The callback's run over a list of entries: in order, until it returns false.
unfoldable pub visit {ℓ} : {S : Type ℓ} → (S → Bytes → Bytes → Bool × S) → List Entry → S → S
visit cb [] s = s
visit cb ((k, v) ∷ rest) s =
    let (go, s') = cb s k v in let more = visit cb rest s' in if go then more else s'

abbrev pub past : Bytes → Bytes → Bool
past stop k = not (is_empty stop) && le_bytes stop k

-- The entries before `stop`.
unfoldable pub upto : Bytes → List Entry → List Entry
upto stop [] = []
upto stop ((k, v) ∷ rest) = let more = upto stop rest in if past stop k then [] else (k, v) ∷ more

query_loop-visit {ℓ} :
    {S : Type ℓ} (stop : Bytes) (cb : S → Bytes → Bytes → Bool × S) (xs : List Entry) (s : S)
    → query_loop stop cb xs s ≡ visit cb (upto stop xs) s
unfolding query_loop visit upto
query_loop-visit stop cb [] s = refl
query_loop-visit stop cb ((k, v) ∷ rest) s =
    ground (arith, query_loop-visit stop cb rest (cb s k v).1)

AllAbove-upto : (k stop : Bytes) (xs : List Entry) → AllAbove k xs → AllAbove k (upto stop xs)
unfolding upto
AllAbove-upto k stop [] a = tt
AllAbove-upto k stop ((j, v) ∷ rest) a = elim (Bool-cases (past stop j)) [
  | inl e ↦ rw e tt
  | inr e ↦ rw e (a.0, AllAbove-upto k stop rest a.1)
]

IsAscending-upto : (stop : Bytes) (xs : List Entry) → IsAscending xs → IsAscending (upto stop xs)
unfolding upto
IsAscending-upto stop [] a = tt
IsAscending-upto stop ((j, v) ∷ rest) a = elim (Bool-cases (past stop j)) [
  | inl e ↦ rw e tt
  | inr e ↦ rw e (AllAbove-upto j stop rest a.0, IsAscending-upto stop rest a.1)
]

-- Past the end of the interval there is nothing to find in what comes later.
find-upto :
    (k stop : Bytes) (xs : List Entry)
    → IsAscending xs
    → find k (upto stop xs) ≡ (if past stop k then none else find k xs)
unfolding upto find
find-upto k stop [] a = ground arith
find-upto k stop ((j, v) ∷ rest) a = ground (
  arith,
  find-upto k stop rest a.1,
  eq_bytes→eq j k,
  find-AllAbove j k rest a.0,
  le_bytes_trans stop j k,
  lt_bytes_asymm j k,
  lt_bytes_connex j k,
)

-- The entries of `d` whose keys lie in [start, stop), in ascending order.
pub record IsRange (level : LevelDb) (d : level.Db) (start stop : Bytes) (es : List Entry)
    : Type 0 where
  pub ascending : IsAscending es
  pub holds : (k : Bytes) → find k es ≡ (if in_range start stop k then level.get d k else none)

module _ (level : LevelDb) (d : level.Db) (start stop : Bytes) where
  unfoldable pub entries_in : List Entry
  entries_in = upto stop (level.seek d start)

  pub entries_in-IsRange : IsRange level d start stop entries_in
  unfolding entries_in
  entries_in-IsRange = record {
    ascending = IsAscending-upto stop (level.seek d start) (level.seek-IsAscending d start);
    holds = λ k. ground (
      arith,
      find-upto k stop (level.seek d start) (level.seek-IsAscending d start),
      level.find-seek d start k,
    );
  }

  -- There is one such list.
  pub IsRange-eq : (es : List Entry) → IsRange level d start stop es → es ≡ entries_in
  IsRange-eq es r =
      ascending_ext es entries_in r.ascending entries_in-IsRange.ascending
        (λ k. r.holds k ∙ sym (entries_in-IsRange.holds k))

  -- RangeQuery calls its callback, whatever it is, for the entries of the database whose keys lie in
  -- [start, stop) (up to the end if `stop` is empty), in ascending order, until it returns false.
  pub range_query-visit {ℓ} :
      {S : Type ℓ} (es : List Entry) (cb : S → Bytes → Bytes → Bool × S) (s : S)
      → IsRange level d start stop es
      → range_query level d start stop cb s ≡ visit cb es s
  unfolding range_query entries_in
  range_query-visit es cb s r =
      query_loop-visit stop cb (level.seek d start) s
      ∙ ap (λ (l : List Entry). visit cb l s) (sym (IsRange-eq es r))

visit-push_key :
    (es : List Entry) (keys : List Bytes) → visit push_key es keys ≡ keys ++ map (λ e. e.0) es
unfolding visit
visit-push_key [] keys = sym (append-nil keys)
visit-push_key ((k, v) ∷ es) keys =
    visit-push_key es (keys ++ (k ∷ [])) ∙ append_assoc keys (k ∷ []) (map (λ e. e.0) es)

-- The statistics that a list of entries has.
abbrev pub entry_stats : List Entry → Option Stats
entry_stats es = stats_of_keys (map (λ e. e.0) es)

pub range_stats-entries :
    (level : LevelDb) (d : level.Db) (start stop : Bytes) (es : List Entry)
    → IsRange level d start stop es
    → range_stats level d start stop ≡ entry_stats es
unfolding range_stats
range_stats-entries level d start stop es r =
    ap stats_of_keys (range_query-visit level d start stop es push_key [] r ∙ visit-push_key es [])
