-- ===== src/Balancer/Tests.antt =====
-- A split on a small table, and each theorem about splits at an input.
use le_kv.Base.{true, false, none, some, [], ◌∷◌, ◌≡◌, refl, arith}
use le_kv.Bytes.{Bytes, lt_bytes}
use le_kv.Master.{Master, query_tablet_stats, save_tablets}
use le_kv.Master.Toy.{toy_table, toy_env}
use le_kv.Protocol.{encode_custom_request, try_decode}
use le_kv.Routing.{Table}
use le_kv.Balancer.{
  try_split_tablet, split_found, after_query, commit_split, split_table, bad_median,
}
use le_kv.Balancer.Split.{IsTable, node_for, try_split_tablet-IsTable}

-- A master that cannot open its file.
abbrev before : Master toy_env
before = record {
  table = toy_table;
  world = (false, none);
  transfer_count = 0;
  transfer_time_ms = 0;
}

abbrev split_result : Table
split_result = record {
  tablets =
      record { id = 3; start_key = []; end_key = b'f' ∷ []; node_id = 2; key_count = 4 }
      ∷ record { id = 4; start_key = b'f' ∷ []; end_key = b'm' ∷ []; node_id = 2; key_count = 4 }
      ∷ record { id = 2; start_key = b'm' ∷ []; end_key = []; node_id = 3; key_count = 0 }
      ∷ [];
  next_tablet_id = 5;
  epoch = 2;
}

abbrev after : Master toy_env
after = record before { table = split_result }

split_run : try_split_tablet toy_env 0 before ≡ some (true, after)
unfolding try_split_tablet split_found after_query commit_split split_table bad_median
    query_tablet_stats save_tablets try_decode encode_custom_request lt_bytes
split_run = refl

toy_table-IsTable : IsTable toy_table
unfolding lt_bytes
toy_table-IsTable = record {
  partition = (refl, refl, (refl, refl));
  below = omega arith;
  distinct = omega arith;
}

try_split_tablet-IsTable_example :
    IsTable after.table × ((key : Bytes) → node_for key after.table ≡ node_for key before.table)
try_split_tablet-IsTable_example =
    try_split_tablet-IsTable toy_env 0 before after true toy_table-IsTable (omega arith) split_run
