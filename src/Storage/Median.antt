-- ===== src/Storage/Median.antt =====
-- The median key that RangeStats reports cuts the interval in two halves.
use le_kv.Base.{
  ℕ, zero, suc, ◌-◌, ◌/◌, ◌<◌, ◌≤◌, true, none, some, List, [], ◌∷◌, ◌≡◌, ◌≢◌, refl, ap, sym, ◌∙◌,
  if◌then◌else◌, arith, length, take, drop, get_elem?, get_elem?-lt, map, length-take, length-drop,
}
use le_kv.Bytes.{Bytes, lt_bytes, is_empty, in_range}
use le_kv.Bytes.Order.{
  lt_bytes_asymm, lt_bytes_trans, le_lt_trans, le_bytes_trans, not-lt_bytes-nil,
}
use le_kv.Storage.{Stats, stats_of_keys, range_stats}
use le_kv.Storage.Api.{LevelDb, Entry, AllAbove, IsAscending, find}
use le_kv.Storage.Entries.{eq_bytes→eq, eq_bytes_refl, find-AllAbove}
use le_kv.Storage.Range.{IsRange, entry_stats, entries_in, entries_in-IsRange, range_stats-entries}

-- In an ascending list the entry at `i` has a key, above which all later ones lie.
AllAbove-get_elem? :
    (k m w : Bytes) (i : ℕ) (es : List Entry)
    → AllAbove k es
    → get_elem? es i ≡ some (m, w)
    → lt_bytes k m ≡ true
AllAbove-get_elem? k m w i [] a e = cc
AllAbove-get_elem? k m w zero ((j, v) ∷ es) a e = ground arith
AllAbove-get_elem? k m w (suc i) ((j, v) ∷ es) a e = AllAbove-get_elem? k m w i es a.1 e

AllAbove-take : (k : Bytes) (i : ℕ) (es : List Entry) → AllAbove k es → AllAbove k (take i es)
AllAbove-take k zero es a = tt
AllAbove-take k (suc i) [] a = tt
AllAbove-take k (suc i) ((j, v) ∷ es) a = (a.0, AllAbove-take k i es a.1)

IsAscending-take : (i : ℕ) (es : List Entry) → IsAscending es → IsAscending (take i es)
IsAscending-take zero es a = tt
IsAscending-take (suc i) [] a = tt
IsAscending-take (suc i) ((j, v) ∷ es) a = (AllAbove-take j i es a.0, IsAscending-take i es a.1)

IsAscending-drop : (i : ℕ) (es : List Entry) → IsAscending es → IsAscending (drop i es)
IsAscending-drop zero es a = a
IsAscending-drop (suc i) [] a = tt
IsAscending-drop (suc i) ((j, v) ∷ es) a = IsAscending-drop i es a.1

-- The entries before index `i` are those with keys below the key at `i`.
find-take :
    (k m w : Bytes) (i : ℕ) (es : List Entry)
    → IsAscending es
    → get_elem? es i ≡ some (m, w)
    → find k (take i es) ≡ (if lt_bytes k m then find k es else none)
unfolding find
find-take k m w i [] a e = cc
find-take k m w zero ((j, v) ∷ es) a e =
    ground (arith, find-AllAbove j k es a.0, lt_bytes_asymm k j)
find-take k m w (suc i) ((j, v) ∷ es) a e =
    ground (arith, find-take k m w i es a.1 e, eq_bytes→eq j k, AllAbove-get_elem? j m w i es a.0 e)

-- The entries from index `i` on are those with keys from the key at `i` on.
find-drop :
    (k m w : Bytes) (i : ℕ) (es : List Entry)
    → IsAscending es
    → get_elem? es i ≡ some (m, w)
    → find k (drop i es) ≡ (if lt_bytes k m then none else find k es)
unfolding find
find-drop k m w i [] a e = cc
find-drop k m w zero ((j, v) ∷ es) a e =
    ground (arith, find-AllAbove j k es a.0, lt_bytes_asymm k j)
find-drop k m w (suc i) ((j, v) ∷ es) a e =
    ground (arith, find-drop k m w i es a.1 e, eq_bytes→eq j k, AllAbove-get_elem? j m w i es a.0 e)

length-map-key : (es : List Entry) → length (map (λ e. e.0) es) ≡ length es
length-map-key [] = refl
length-map-key (e ∷ es) = ap suc (length-map-key es)

get_elem?-map-key :
    (i : ℕ) (es : List Entry) (m w : Bytes)
    → get_elem? es i ≡ some (m, w)
    → get_elem? (map (λ e. e.0) es) i ≡ some m
get_elem?-map-key i [] m w e = cc
get_elem?-map-key zero (x ∷ es) m w e = ground arith
get_elem?-map-key (suc i) (x ∷ es) m w e = get_elem?-map-key i es m w e

-- The statistics of a list of entries are never an access out of range.
pub entry_stats-count :
    (es : List Entry) → (st : Stats) × (entry_stats es ≡ some st) × (st.key_count ≡ length es)
unfolding stats_of_keys
entry_stats-count [] = (record { key_count = 0; median_key = [] }, refl, refl)
entry_stats-count (x ∷ es) =
    let (m, e) = get_elem?-lt (x ∷ es) (length (x ∷ es) / 2) (omega arith) in
    (
      record { key_count = length (x ∷ es); median_key = m.0 },
      ground (arith, length-map-key es, get_elem?-map-key (length (x ∷ es) / 2) (x ∷ es) m.0 m.1 e),
      refl,
    )

-- The entry that the median is the key of.
entry_stats-median :
    (es : List Entry) (st : Stats)
    → entry_stats es ≡ some st
    → st.key_count ≢ 0
    → (w : Bytes) × (get_elem? es (length es / 2) ≡ some (st.median_key, w))
      × (st.key_count ≡ length es)
unfolding stats_of_keys
entry_stats-median [] st e n = ground arith
entry_stats-median (x ∷ es) st e n =
    let (m, g) = get_elem?-lt (x ∷ es) (length (x ∷ es) / 2) (omega arith) in
    (
      m.1,
      ground (arith, length-map-key es, get_elem?-map-key (length (x ∷ es) / 2) (x ∷ es) m.0 m.1 g),
      ground (arith, length-map-key es, get_elem?-map-key (length (x ∷ es) / 2) (x ∷ es) m.0 m.1 g),
    )

-- An entry of an ascending list is found under its key.
find-get_elem? :
    (m w : Bytes) (i : ℕ) (es : List Entry)
    → IsAscending es
    → get_elem? es i ≡ some (m, w)
    → find m es ≡ some w
unfolding find
find-get_elem? m w i [] a e = cc
find-get_elem? m w zero ((j, v) ∷ es) a e = ground (arith, eq_bytes_refl m)
find-get_elem? m w (suc i) ((j, v) ∷ es) a e =
    ground (arith, find-get_elem? m w i es a.1 e, AllAbove-get_elem? j m w i es a.0 e)

-- The key at a positive index is above the first one, and so not empty.
first-lt :
    (m w k v : Bytes) (i : ℕ) (es : List Entry)
    → IsAscending ((k, v) ∷ es)
    → 0 < i
    → get_elem? ((k, v) ∷ es) i ≡ some (m, w)
    → lt_bytes k m ≡ true
first-lt m w k v zero es a h e = absurd (omega arith)
first-lt m w k v (suc i) es a h e = AllAbove-get_elem? k m w i es a.0 e

is_empty-nil : (m : Bytes) → is_empty m ≡ true → m ≡ []
is_empty-nil [] h = refl
is_empty-nil (x ∷ m) h = cc

-- The median of an interval is a key of it above its start.
module _ (level : LevelDb) (d : level.Db) (start stop : Bytes) (es : List Entry)
    (r : IsRange level d start stop es) (m w : Bytes) (i : ℕ)
    (g : get_elem? es i ≡ some (m, w)) where
  median-in_range : in_range start stop m ≡ true
  median-in_range = ground (arith, r.holds m, find-get_elem? m w i es r.ascending g)

  start-lt-median : 0 < i → lt_bytes start m ≡ true
  start-lt-median h = go es r.ascending r.holds g
    where
      go :
          (l : List Entry)
          → IsAscending l
          → ((k : Bytes) → find k l ≡ (if in_range start stop k then level.get d k else none))
          → get_elem? l i ≡ some (m, w)
          → lt_bytes start m ≡ true
      go [] a holds e = cc
      go ((k, v) ∷ l) a holds e = ground (
        arith,
        first-lt m w k v i l a h e,
        holds k,
        find-get_elem? k v 0 ((k, v) ∷ l) a refl,
        le_lt_trans start k m,
      )

  IsRange-take : 0 < i → IsRange level d start m (take i es)
  IsRange-take h = record {
    ascending = IsAscending-take i es r.ascending;
    holds = λ k. ground (
      arith,
      find-take k m w i es r.ascending g,
      r.holds k,
      median-in_range,
      start-lt-median h,
      lt_bytes_trans k m stop,
      not-lt_bytes-nil start,
      is_empty-nil m,
    );
  }

  IsRange-drop : IsRange level d m stop (drop i es)
  IsRange-drop = record {
    ascending = IsAscending-drop i es r.ascending;
    holds = λ k. ground (
      arith,
      find-drop k m w i es r.ascending g,
      r.holds k,
      median-in_range,
      le_bytes_trans start m k,
    );
  }

-- If RangeStats reports two keys or more, its median is a key of [start, stop) above start, so
-- neither half is empty: RangeStats of [start, median) then reports half the keys, rounded down,
-- and of [median, stop) the others.
pub range_stats-halves :
    (level : LevelDb) (d : level.Db) (start stop : Bytes) (st : Stats)
    → range_stats level d start stop ≡ some st
    → 2 ≤ st.key_count
    → (lt_bytes start st.median_key ≡ true)
      × (in_range start stop st.median_key ≡ true)
      × ((l : Stats) × (range_stats level d start st.median_key ≡ some l)
          × (l.key_count ≡ st.key_count / 2))
      × ((h : Stats) × (range_stats level d st.median_key stop ≡ some h)
          × (h.key_count ≡ st.key_count - st.key_count / 2))
range_stats-halves level d start stop st e two =
    let es = entries_in level d start stop in
    let r = entries_in-IsRange level d start stop in
    let same = range_stats-entries level d start stop es r in
    let (w, g, c) = entry_stats-median es st (sym same ∙ e) (omega arith) in
    let i = length es / 2 in
    let pos : 0 < i = omega arith in
    let m = st.median_key in
    let (l, le, lc) = entry_stats-count (take i es) in
    let (h, he, hc) = entry_stats-count (drop i es) in
    (
      start-lt-median level d start stop es r m w i g pos,
      median-in_range level d start stop es r m w i g,
      (
        l,
        range_stats-entries level d start m (take i es)
              (IsRange-take level d start stop es r m w i g pos)
            ∙ le,
        omega (arith, length-take i es),
      ),
      (
        h,
        range_stats-entries level d m stop (drop i es)
              (IsRange-drop level d start stop es r m w i g)
            ∙ he,
        omega (arith, length-drop i es),
      ),
    )

-- RangeStats always reports: its median is read inside its vector of keys, and its count is the
-- number of the entries whose keys lie in [start, stop).
pub range_stats-count :
    (level : LevelDb) (d : level.Db) (start stop : Bytes) (es : List Entry)
    → IsRange level d start stop es
    → (st : Stats) × (range_stats level d start stop ≡ some st) × (st.key_count ≡ length es)
range_stats-count level d start stop es r =
    let (st, e, c) = entry_stats-count es in
    (st, range_stats-entries level d start stop es r ∙ e, c)
