-- ===== src/Dispatch.antt =====
-- The dispatch of requests in kv/raft_node.cpp: HandleBinaryRequest, and the two requests that the
-- master answers from its routing table. The outer `none` is a read outside a vector.
pub mod Decimal
pub mod Route
pub mod Writes
mod Tests
use le_kv.Base.{
  ℕ, zero, suc, ◌+◌, ◌/◌, ◌%◌, Bool, true, false, not, Option, none, some, List, [], ◌∷◌, ◌++◌,
  ◌==◌, ltb, if◌then◌else◌, length, ◌>>=◌,
}
use le_kv.Bytes.{Bytes}
use le_kv.Bytes.Endian.{be16, be32, u8, u16, u32, read16, slice}
use le_kv.Protocol.{
  st_ok, st_bad_request, st_no_shard, op_get_route, op_shards, op_put, op_get, op_delete,
  op_tablet_stats, op_scan_range, op_delete_range,
}
use le_kv.Routing.{PeerInfo, Table, Tablet, leader_port, get_tablet_route}
use le_kv.Storage.Api.{LevelDb}
use le_kv.DataNode.{
  handle_put, handle_get, handle_delete, handle_tablet_stats, handle_scan_range,
  handle_delete_range,
}
use Decimal.{to_string}

-- GetNodeAddr: "ip:port" of the first peer with the id, or nothing.
unfoldable pub get_node_addr : List PeerInfo → ℕ → Bytes
get_node_addr [] node_id = []
get_node_addr (p ∷ peers) node_id =
    if p.id == u32 node_id then p.ip ++ (b':' ∷ to_string p.port) else get_node_addr peers node_id

-- The payload of a route: [OK][1B tablet id][4B epoch][2B length][address].
abbrev pub route_reply : Tablet → ℕ → Bytes → Bytes
route_reply t epoch addr =
    st_ok ∷ u8 t.id ∷ (be32 (u32 epoch) ++ (be16 (u16 (length addr)) ++ addr))

-- HandleMasterGetRoute
unfoldable pub handle_master_get_route : List PeerInfo → Table → Bytes → Option Bytes
unfolding get_node_addr
handle_master_get_route peers table payload =
    if ltb (length payload) 3 then some (st_bad_request ∷ []) else do
      key_len ← read16 payload 1
      if ltb (length payload) (3 + key_len) then some (st_bad_request ∷ []) else do
        key ← slice payload 3 key_len
        route ← get_tablet_route table.tablets key
        elim route [
          | none ↦ some (st_no_shard ∷ [])
          | some t ↦ some (route_reply t table.epoch (get_node_addr peers t.node_id))
        ]

-- One tablet of HandleMasterShards: id:start:end:address.
abbrev pub shard_text : List PeerInfo → Tablet → Bytes
shard_text peers t =
    to_string t.id
    ++ (b':' ∷ (t.start_key ++ (b':' ∷ (t.end_key ++ (b':' ∷ get_node_addr peers t.node_id)))))

-- The loop of HandleMasterShards.
unfoldable pub shards_body : List PeerInfo → List Tablet → Bool → Bytes
shards_body peers [] first = []
shards_body peers (t ∷ ts) first =
    (if not first then b' ' ∷ [] else []) ++ (shard_text peers t ++ shards_body peers ts false)

-- HandleMasterShards
unfoldable pub handle_master_shards : List PeerInfo → Table → Bytes
unfolding shards_body
handle_master_shards peers table =
    st_ok ∷ (to_string (length table.tablets) ++ (b' ' ∷ shards_body peers table.tablets true))

module _ (level : LevelDb) where
  open level use {Db}

  -- The members of RaftNode that its handlers use.
  pub record Node : Type 0 where
    pub port : ℕ
    pub peers : List PeerInfo
    pub table : Table
    pub storage : Option Db

  abbrev pub is_master : Node → Bool
  is_master n = n.port == leader_port

  -- A reply that leaves the node as it is.
  abbrev pub unchanged : Node → Option Bytes → Option (Bytes × Node)
  unchanged n r = do payload ← r; some (payload, n)

  -- A reply of a handler of a data node, which may change the storage.
  abbrev pub stored : Node → Option (Bytes × Option Db) → Option (Bytes × Node)
  stored n r = do x ← r; some (x.0, record n { storage = x.1 })

  -- The branch of HandleBinaryRequest for a master.
  unfoldable pub master_request : Node → ℕ → Bytes → Option (Bytes × Node)
  master_request n opcode payload =
      if opcode == op_get_route
      then unchanged n (handle_master_get_route n.peers n.table payload)
      else if opcode == op_shards
      then unchanged n (some (handle_master_shards n.peers n.table))
      else some (st_bad_request ∷ [], n)

  -- The branch of HandleBinaryRequest for a data node.
  unfoldable pub data_node_request : Node → ℕ → Bytes → Option (Bytes × Node)
  data_node_request n opcode payload =
      if opcode == op_put
      then stored n (handle_put level n.storage payload)
      else if opcode == op_get
      then stored n (handle_get level n.storage payload)
      else if opcode == op_delete
      then stored n (handle_delete level n.storage payload)
      else if opcode == op_tablet_stats
      then stored n (handle_tablet_stats level n.storage payload)
      else if opcode == op_scan_range
      then stored n (handle_scan_range level n.storage payload)
      else if opcode == op_delete_range
      then stored n (handle_delete_range level n.storage payload)
      else some (st_bad_request ∷ [], n)

  -- HandleBinaryRequest
  unfoldable pub handle_binary_request : Node → Bytes → Option (Bytes × Node)
  unfolding master_request data_node_request
  handle_binary_request n [] = some (st_bad_request ∷ [], n)
  handle_binary_request n (opcode ∷ rest) =
      if is_master n
      then master_request n opcode (opcode ∷ rest)
      else data_node_request n opcode (opcode ∷ rest)
