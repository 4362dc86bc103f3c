-- ===== src/Rounds/Tests.antt =====
-- A round of the balancer on a small table, and the theorem about its rounds there.
use le_kv.Base.{false, some, none, [], ◌∷◌, ◌≡◌, refl, arith}
use le_kv.Bytes.{lt_bytes}
use le_kv.Bytes.Endian.{read16}
use le_kv.Master.{Master, query_tablet_stats, save_tablets}
use le_kv.Master.Toy.{toy_table, toy_env}
use le_kv.Protocol.{encode_custom_request, try_decode}
use le_kv.Routing.{Table}
use le_kv.Balancer.{
  try_split_tablet, split_found, after_query, commit_split, split_table, bad_median,
}
use le_kv.Balancer.Split.{IsTable}
use le_kv.Migration.{
  sync_all_tablet_stats, sync_from, store_count, do_load_balance, choose_move, node_loads, add_load,
  max_load, min_load, largest_on, move_chosen,
}
use le_kv.Rounds.{split_step, split_full, balance_round, balancer_loop}
use le_kv.Rounds.Sound.{balancer_loop-IsTable}

abbrev before : Master toy_env
before = record {
  table = toy_table;
  world = (false, none);
  transfer_count = 0;
  transfer_time_ms = 0;
}

-- Every data node answers that it has eight keys, with the median "f". The first tablet is full and
-- split there; the second has no such key.
abbrev round_result : Table
round_result = record {
  tablets =
      record { id = 3; start_key = []; end_key = b'f' ∷ []; node_id = 2; key_count = 4 }
      ∷ record { id = 4; start_key = b'f' ∷ []; end_key = b'm' ∷ []; node_id = 2; key_count = 4 }
      ∷ record { id = 2; start_key = b'm' ∷ []; end_key = []; node_id = 3; key_count = 8 }
      ∷ [];
  next_tablet_id = 5;
  epoch = 2;
}

abbrev after : Master toy_env
after = record before { table = round_result }

round_run : balancer_loop toy_env 1 4 before ≡ some (tt, after)
unfolding balancer_loop balance_round split_full split_step sync_all_tablet_stats sync_from
    store_count query_tablet_stats try_split_tablet split_found after_query commit_split split_table
    bad_median save_tablets try_decode encode_custom_request lt_bytes do_load_balance choose_move
    node_loads add_load max_load min_load largest_on move_chosen read16
round_run = refl

toy_table-IsValid : IsTable toy_table
unfolding lt_bytes
toy_table-IsValid = record {
  partition = (refl, refl, (refl, refl));
  below = omega arith;
  distinct = omega arith;
}

balancer_loop-IsTable_example : IsTable after.table
balancer_loop-IsTable_example =
    balancer_loop-IsTable toy_env 1 4 before after tt toy_table-IsValid (omega arith) round_run
