-- ===== src/Storage/Tests.antt =====
-- Runs of the storage engine on a small database, and each theorem about it there.
use le_kv.Base.{ℕ, ◌+◌, Bool, true, none, some, List, [], ◌∷◌, ◌≡◌, refl, if◌then◌else◌, arith}
use le_kv.Bytes.{Bytes, lt_bytes, in_range}
use le_kv.Storage.{
  Stats, get, delete, delete_range, range_query, range_stats, query_loop, stats_of_keys,
  collect_keys, delete_all,
}
use le_kv.Storage.Api.{Entry, IsAscending, find}
use le_kv.Storage.Range.{range_query-visit, entries_in, entries_in-IsRange, visit, upto}
use le_kv.Storage.Median.{range_stats-halves}
use le_kv.Storage.Delete.{get-delete_range}
use le_kv.Storage.Sorted.{SortedDb, sorted_level, from, remove}

-- The keys "a", "b", "c", "d".
abbrev four : List Entry
four = (b'a' ∷ [], 1 ∷ []) ∷ (b'b' ∷ [], 2 ∷ []) ∷ (b'c' ∷ [], 3 ∷ []) ∷ (b'd' ∷ [], 4 ∷ []) ∷ []

four-IsAscending : IsAscending four
unfolding lt_bytes
four-IsAscending = ((refl, (refl, (refl, tt))), ((refl, (refl, tt)), ((refl, tt), (tt, tt))))

abbrev four_db : SortedDb
four_db = (four, four-IsAscending)

abbrev count_all : ℕ → Bytes → Bytes → Bool × ℕ
count_all n k v = (true, n + 1)

program : Unit {0}
unfolding lt_bytes from find query_loop range_query range_stats stats_of_keys entries_in upto visit
    get delete_range collect_keys delete_all remove
program = tt

stats_run :
    range_stats sorted_level four_db [] [] ≡ some (record { key_count = 4; median_key = b'c' ∷ [] })
unfolding program
stats_run = refl

range_query-visit_example :
    range_query sorted_level four_db (b'b' ∷ []) (b'd' ∷ []) count_all 0
    ≡ visit count_all (entries_in sorted_level four_db (b'b' ∷ []) (b'd' ∷ [])) 0
range_query-visit_example =
    range_query-visit sorted_level four_db (b'b' ∷ []) (b'd' ∷ [])
      (entries_in sorted_level four_db (b'b' ∷ []) (b'd' ∷ [])) count_all 0
      (entries_in-IsRange sorted_level four_db (b'b' ∷ []) (b'd' ∷ []))

range_stats-halves_example :
    (lt_bytes [] (b'c' ∷ []) ≡ true)
    × (in_range [] [] (b'c' ∷ []) ≡ true)
    × ((l : Stats) × (range_stats sorted_level four_db [] (b'c' ∷ []) ≡ some l) × (l.key_count ≡ 2))
    × ((h : Stats) × (range_stats sorted_level four_db (b'c' ∷ []) [] ≡ some h) × (h.key_count ≡ 2))
range_stats-halves_example =
    range_stats-halves sorted_level four_db [] [] (record { key_count = 4; median_key = b'c' ∷ [] })
      stats_run (omega arith)

get-delete_range_example :
    get sorted_level (delete_range sorted_level four_db (b'b' ∷ []) (b'd' ∷ [])).1 (b'c' ∷ []) ≡ (
      if in_range (b'b' ∷ []) (b'd' ∷ []) (b'c' ∷ [])
      then none
      else get sorted_level four_db (b'c' ∷ []))
unfolding delete
get-delete_range_example =
    get-delete_range sorted_level four_db (b'b' ∷ []) (b'd' ∷ []) (b'c' ∷ []) (λ d k. refl)

delete_run :
    (delete_range sorted_level four_db (b'b' ∷ []) (b'd' ∷ [])).1.0
    ≡ (b'a' ∷ [], 1 ∷ []) ∷ (b'd' ∷ [], 4 ∷ []) ∷ []
unfolding program
delete_run = refl
