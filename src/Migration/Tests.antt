-- ===== src/Migration/Tests.antt =====
-- A migration of the first tablet of a small table, and each theorem about migrations at an input.
use le_kv.Base.{get_elem?, true, false, some, none, [], ◌∷◌, ◌≡◌, refl, arith, if◌then◌else◌}
use le_kv.Bytes.{Bytes, lt_bytes}
use le_kv.Bytes.Endian.{read16}
use le_kv.Master.{Master, range_request, range_payload, send_delete_range, save_tablets, is_ok}
use le_kv.Master.Toy.{toy_table, scan_env}
use le_kv.Protocol.{encode_custom_request, encode_request, try_decode}
use le_kv.Balancer.Split.{IsTable, node_for}
use le_kv.Routing.{Table, Tablet}
use le_kv.Routing.Partition.{contains}
use le_kv.Migration.{
  next_entry, scan_count, moved_table, send_entry, transfer_loop, transfer_entries,
  transfer_payload, scan_and_transfer_data, commit_move, migrate_found, migrate_tablet,
  do_load_balance, choose_move, node_loads, add_load, max_load, min_load, largest_on, move_chosen,
  count_move,
}
use le_kv.Migration.Tables.{migrate_tablet-IsTable}

-- A master that cannot open its file.
abbrev before : Master scan_env
before = record {
  table = toy_table;
  world = (false, none);
  transfer_count = 0;
  transfer_time_ms = 0;
}

abbrev move_result : Table
move_result = record {
  tablets =
      record { id = 1; start_key = []; end_key = b'm' ∷ []; node_id = 3; key_count = 8 }
      ∷ record { id = 2; start_key = b'm' ∷ []; end_key = []; node_id = 3; key_count = 0 }
      ∷ [];
  next_tablet_id = 3;
  epoch = 2;
}

abbrev after : Master scan_env
after = record before { table = move_result }

move_run : migrate_tablet scan_env 0 3 before ≡ some (true, after)
unfolding migrate_tablet migrate_found scan_and_transfer_data range_request range_payload
    transfer_payload transfer_entries transfer_loop send_entry next_entry scan_count commit_move
    moved_table send_delete_range save_tablets is_ok try_decode encode_custom_request encode_request
    read16
move_run = refl

toy_table-IsSound : IsTable toy_table
unfolding lt_bytes
toy_table-IsSound = record {
  partition = (refl, refl, (refl, refl));
  below = omega arith;
  distinct = omega arith;
}

migrate_tablet-IsTable_example :
    IsTable after.table
    × ((moved : Tablet) × (get_elem? before.table.tablets 0 ≡ some moved)
        × ((key : Bytes)
            → node_for key after.table
              ≡ (if contains moved key then some 3 else node_for key before.table)))
migrate_tablet-IsTable_example =
    migrate_tablet-IsTable scan_env 0 3 before after toy_table-IsSound move_run

abbrev balanced : Master scan_env
balanced = record after { transfer_count = 8 }

balance_run : do_load_balance scan_env before ≡ some (true, balanced)
unfolding do_load_balance choose_move node_loads add_load max_load min_load largest_on move_chosen
    count_move migrate_tablet migrate_found scan_and_transfer_data range_request range_payload
    transfer_payload transfer_entries transfer_loop send_entry next_entry scan_count commit_move
    moved_table send_delete_range save_tablets is_ok try_decode encode_custom_request encode_request
    read16
balance_run = refl
