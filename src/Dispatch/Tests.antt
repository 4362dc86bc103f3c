-- ===== src/Dispatch/Tests.antt =====
-- Requests to a master and to a data node, and each theorem about the dispatch at an input.
use le_kv.Base.{length, ◌++◌, true, none, some, [], ◌∷◌, ◌≡◌, refl, arith}
use le_kv.Bytes.{Bytes, lt_bytes}
use le_kv.Bytes.Endian.{be16, be32, u8, u16, u32, read16, read32, slice}
use le_kv.Protocol.{st_ok, op_put}
use le_kv.Routing.{Tablet, first_tablet, second_tablet}
use le_kv.Routing.Partition.{IsPartition, owner, contains}
use le_kv.Storage.Sorted.{SortedDb, sorted_level}
use le_kv.DataNode.{handle_put, store_put}
use le_kv.Dispatch.{
  Node, get_node_addr, shards_body, handle_master_shards, handle_binary_request, data_node_request,
}
use le_kv.Dispatch.Decimal.{digits, to_string}
use le_kv.Dispatch.Route.{IsAddress, route_payload, handle_get_route-owner}
use le_kv.Dispatch.Writes.{DidWrite, handle_binary_request-DidWrite}

abbrev master : Node sorted_level
master = record {
  port = 9001;
  peers = record { id = 2; ip = b'h' ∷ []; port = 9002 } ∷ [];
  table = record { tablets = first_tablet 2 ∷ second_tablet 3 ∷ []; next_tablet_id = 3; epoch = 1 };
  storage = none;
}

abbrev empty_db : SortedDb
empty_db = ([], tt)

abbrev data_node : Node sorted_level
data_node = record master { port = 9002; storage = some empty_db }

addr_run : get_node_addr master.peers 2 ≡ b'h' ∷ b':' ∷ b'9' ∷ b'0' ∷ b'0' ∷ b'2' ∷ []
unfolding get_node_addr to_string digits
addr_run = refl

shards_run :
    handle_master_shards [] (record master.table { tablets = first_tablet 2 ∷ [] })
    ≡ 0 ∷ b'1' ∷ b' ' ∷ b'1' ∷ b':' ∷ b':' ∷ b'm' ∷ b':' ∷ []
unfolding handle_master_shards shards_body get_node_addr to_string digits
shards_run = refl

master-IsPartition : IsPartition master.table.tablets
unfolding lt_bytes
master-IsPartition = (refl, refl, (refl, refl))

handle_get_route-owner_example :
    (t : Tablet) × (addr : Bytes) × (owner (b'k' ∷ []) master.table.tablets ≡ some t)
    × (contains t (b'k' ∷ []) ≡ true)
    × (handle_binary_request sorted_level master (route_payload (b'k' ∷ []))
        ≡ some (st_ok ∷ u8 t.id ∷ (be32 (u32 1) ++ (be16 (u16 (length addr)) ++ addr)), master))
    × IsAddress master.peers t.node_id addr
handle_get_route-owner_example =
    handle_get_route-owner (b'k' ∷ []) (omega arith) sorted_level master refl master-IsPartition

-- A PUT of the key "a" with the value "b", to a data node without an open storage.
abbrev put_a : Bytes
put_a = 0 ∷ 1 ∷ 0 ∷ 0 ∷ 0 ∷ 1 ∷ b'a' ∷ b'b' ∷ []

abbrev closed : Node sorted_level
closed = record data_node { storage = none }

put_run : handle_binary_request sorted_level closed (op_put ∷ put_a) ≡ some (4 ∷ [], closed)
unfolding handle_binary_request data_node_request handle_put store_put read16 read32 slice
put_run = refl

handle_binary_request-DidWrite_example : DidWrite sorted_level op_put closed closed
handle_binary_request-DidWrite_example =
    handle_binary_request-DidWrite sorted_level closed closed op_put put_a (4 ∷ []) put_run
