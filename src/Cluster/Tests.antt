-- ===== src/Cluster/Tests.antt =====
-- A migration in a small cluster.
use le_kv.Base.{
  ℕ, ◌<◌, true, some, none, [], ◌∷◌, ◌≡◌, ◌≢◌, refl, arith, ◌==◌, if◌then◌else◌, inl, inr,
  Bool-cases,
}
use le_kv.Bytes.{Bytes, lt_bytes}
use le_kv.Storage.Api.{eq_bytes, find}
use le_kv.Storage.Entries.{eq_bytes→eq}
use le_kv.Storage.Range.{upto, entries_in}
use le_kv.Storage.Sorted.{SortedDb, from, insert, sorted_level, sorted_put}
use le_kv.Storage
use le_kv.Routing.{Table, Tablet}
use le_kv.Routing.Partition.{contains}
use le_kv.Balancer.Split.{IsTable}
use le_kv.Dispatch.{Node, handle_binary_request}
use le_kv.Protocol.{op_put, st_ok}
use le_kv.Protocol.RoundTrip.{request_payload}
use le_kv.Routing.{get_tablet_route, find_tablet_index, search_loop}
use le_kv.Cluster.Put.{with_node, put_routed-served}
use le_kv.Master.{Master}
use le_kv.Master.Toy.{toy_table, dump_only-same}
use le_kv.Migration.{
  moved_table, migrate_tablet, do_load_balance, choose_move, node_loads, add_load, max_load,
  min_load, largest_on,
}
use le_kv.Migration.Load.{load_on}
use le_kv.Cluster.Balance.{do_load_balance-served}
use le_kv.Cluster.Scan.{ScanFits}
use le_kv.Cluster.Served.{served, stored_on, migrate_tablet-served}
use le_kv.Cluster.Toy.{ToyWorld, cluster_env, cluster_nodes}

-- The first tablet of the table, which is on node 2.
abbrev first : Tablet
first = record { id = 1; start_key = []; end_key = b'm' ∷ []; node_id = 2; key_count = 8 }

abbrev after_move : Table
after_move = moved_table 0 first 3 toy_table

abbrev db_2 : SortedDb
db_2 = (sorted_put (sorted_put ([], tt) (b'a' ∷ []) (1 ∷ [])).1 (b'c' ∷ []) (2 ∷ 3 ∷ [])).1

abbrev db_3 : SortedDb
db_3 = (sorted_put ([], tt) (b'x' ∷ []) (4 ∷ [])).1

abbrev node_with : SortedDb → Node sorted_level
node_with d = record { port = 9002; peers = []; table = toy_table; storage = some d }

abbrev world : ToyWorld
world = record { file = none; nodes = λ id. if id == 2 then node_with db_2 else node_with db_3 }

abbrev before : Master (cluster_env after_move)
before = record { table = toy_table; world = world; transfer_count = 0; transfer_time_ms = 0 }

toy_table-IsSound : IsTable toy_table
unfolding lt_bytes
toy_table-IsSound = record {
  partition = (refl, refl, (refl, refl));
  below = omega arith;
  distinct = omega arith;
}

scanned :
    entries_in sorted_level db_2 [] (b'm' ∷ []) ≡ (b'a' ∷ [], 1 ∷ []) ∷ (b'c' ∷ [], 2 ∷ 3 ∷ []) ∷ []
unfolding entries_in upto from insert lt_bytes
scanned = refl

entries-Fit : ScanFits [] (b'm' ∷ []) (entries_in sorted_level db_2 [] (b'm' ∷ []))
entries-Fit = rw scanned (record {
  start_fits = omega arith;
  stop_fits = omega arith;
  entries_fit = omega arith;
  frame_fits = omega arith;
})

x_outside : contains first (b'x' ∷ []) ≢ true
unfolding lt_bytes
x_outside e = cc

node_3-empty :
    (key : Bytes) → contains first key ≡ true → stored_on sorted_level (node_with db_3) key ≡ none
unfolding stored_on Storage.get find insert
node_3-empty key inside = elim (Bool-cases (eq_bytes (b'x' ∷ []) key)) [
  | inl e ↦
      let same : b'x' ∷ [] ≡ key = eq_bytes→eq (b'x' ∷ []) key e in
      absurd (x_outside (rw same inside))
  | inr e ↦ rw e refl
]

migrate_tablet-served_example :
    (after : Master (cluster_env after_move)) × (migrate_tablet (cluster_env after_move) 0 3 before
      ≡ some (true, after))
    × IsTable after.table
    × ((key : Bytes)
        → served sorted_level after.world.nodes after.table key
          ≡ served sorted_level world.nodes toy_table key)
    × ((key : Bytes)
        → contains first key ≡ true
        → stored_on sorted_level (after.world.nodes 2) key ≡ none)
migrate_tablet-served_example =
    migrate_tablet-served (cluster_env after_move) sorted_level (cluster_nodes after_move)
      (λ d k. refl) (λ d k v. refl) 0 first 3 (node_with db_2) (node_with db_3) db_2 db_3 before
      (7 ∷ []) toy_table-IsSound refl (omega arith)
      (record { connected = refl; stores = refl; data_node = refl })
      (record { connected = refl; stores = refl; data_node = refl }) entries-Fit
      (dump_only-same after_move) node_3-empty

routed : get_tablet_route toy_table.tablets (b'b' ∷ []) ≡ some (some first)
unfolding get_tablet_route find_tablet_index search_loop lt_bytes
routed = refl

put_routed-served_example :
    (n : Node sorted_level) × (handle_binary_request sorted_level
        (node_with db_2)
        (request_payload op_put (b'b' ∷ []) (7 ∷ []))
      ≡ some (st_ok ∷ [], n))
    × ((k : Bytes)
        → served sorted_level (with_node sorted_level world.nodes 2 n) toy_table k ≡ (
            if eq_bytes (b'b' ∷ []) k
            then some (7 ∷ [])
            else served sorted_level world.nodes toy_table k))
put_routed-served_example =
    put_routed-served sorted_level world.nodes toy_table (b'b' ∷ []) (7 ∷ []) first (node_with db_2)
      db_2 routed refl refl (omega arith) (omega arith) refl

toy_table-fits : (n : ℕ) → load_on n toy_table.tablets < 18446744073709551616
toy_table-fits n = ground arith

toy_choice : choose_move toy_table.tablets ≡ some (0, 3)
unfolding choose_move node_loads add_load max_load min_load largest_on
toy_choice = refl

do_load_balance-served_example :
    (after : Master (cluster_env after_move)) × (do_load_balance (cluster_env after_move) before
      ≡ some (true, after))
    × IsTable after.table
    × ((key : Bytes)
        → served sorted_level after.world.nodes after.table key
          ≡ served sorted_level world.nodes toy_table key)
    × ((key : Bytes)
        → contains first key ≡ true
        → stored_on sorted_level (after.world.nodes 2) key ≡ none)
do_load_balance-served_example =
    do_load_balance-served (cluster_env after_move) sorted_level (cluster_nodes after_move)
      (λ d k. refl) (λ d k v. refl) 0 first 3 (node_with db_2) (node_with db_3) db_2 db_3 before
      (7 ∷ []) toy_table-IsSound toy_table-fits toy_choice refl
      (record { connected = refl; stores = refl; data_node = refl })
      (record { connected = refl; stores = refl; data_node = refl }) entries-Fit
      (dump_only-same after_move) node_3-empty
