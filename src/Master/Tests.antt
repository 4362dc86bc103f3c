-- ===== src/Master/Tests.antt =====
-- Each theorem about the master's requests and its file at an input.
use le_kv.Base.{true, none, some, [], ◌∷◌, ◌≡◌, refl, arith}
use le_kv.Bytes.{Bytes, lt_bytes}
use le_kv.Protocol.{st_ok, op_tablet_stats}
use le_kv.Protocol.RoundTrip.{response_payload}
use le_kv.Storage
use le_kv.Storage.{Stats, range_stats}
use le_kv.Storage.Sorted.{SortedDb, sorted_level, from}
use le_kv.DataNode.{range_bounds, handle_tablet_stats}
use le_kv.Master.{Master, range_payload, parse_stats, save_tablets}
use le_kv.Master.Replies.{range_bounds-range_payload, tablet_stats_reach_master}
use le_kv.Master.Toy.{toy_table, toy_env, dump_only-same}

abbrev small : SortedDb
small = ((b'a' ∷ [], 1 ∷ []) ∷ [], (tt, tt))

abbrev small_stats : Stats
small_stats = record { key_count = 1; median_key = b'a' ∷ [] }

small_stats_run : range_stats sorted_level small [] [] ≡ some small_stats
unfolding range_stats Storage.range_query Storage.query_loop Storage.stats_of_keys from lt_bytes
small_stats_run = refl

range_bounds-range_payload_example :
    range_bounds (range_payload op_tablet_stats (b'a' ∷ []) (b'm' ∷ []))
    ≡ some (some (b'a' ∷ [], b'm' ∷ []))
range_bounds-range_payload_example =
    range_bounds-range_payload op_tablet_stats (b'a' ∷ []) (b'm' ∷ []) (omega arith) (omega arith)

tablet_stats_reach_master_example :
    (value : Bytes) × (handle_tablet_stats sorted_level
        (some small)
        (range_payload op_tablet_stats [] [])
      ≡ some (st_ok ∷ value, some small))
    × (parse_stats (response_payload st_ok value) ≡ some (some small_stats))
tablet_stats_reach_master_example =
    tablet_stats_reach_master sorted_level small op_tablet_stats [] [] small_stats (omega arith)
      (omega arith) small_stats_run (omega arith) (omega arith)

abbrev before : Master toy_env
before = record {
  table = toy_table;
  world = (true, none);
  transfer_count = 0;
  transfer_time_ms = 0;
}

abbrev after : Master toy_env
after = record before { world = (true, some (7 ∷ [])) }

saved : save_tablets toy_env before ≡ some (tt, after)
unfolding save_tablets
saved = rw (dump_only-same toy_table)
