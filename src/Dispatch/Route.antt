-- ===== src/Dispatch/Route.antt =====
-- The answer of the master to a GET_ROUTE request.
use le_kv.Base.{
  ℕ, ◌⊎◌, inl, inr, ◌≢◌, ◌==◌, Bool-cases, ◌<◌, true, some, List, [], ◌∷◌, ◌++◌, ◌≡◌, refl, ap,
  arith, length, append-nil,
}
use le_kv.Bytes.{Bytes}
use le_kv.Bytes.Endian.{be32, u8, u32, be16, u16, read16, slice, slice_past}
use le_kv.Protocol.{st_ok, op_get_route}
use le_kv.Routing.{PeerInfo, Table, Tablet, get_tablet_route}
use le_kv.Routing.Partition.{IsPartition, contains, owner}
use le_kv.Routing.Route.{get_tablet_route-owner}
use le_kv.Storage.Api.{LevelDb}
use le_kv.Dispatch.{
  Node, is_master, get_node_addr, route_reply, handle_master_get_route, handle_binary_request,
  master_request,
}
use le_kv.Dispatch.Decimal.{to_string}

-- The payload of EncodeGetRoute: [op][2B length][key].
abbrev pub route_payload : Bytes → Bytes
route_payload key = op_get_route ∷ (be16 (u16 (length key)) ++ key)

-- No node of the list has this id; ids are compared with 32 bits.
abbrev pub NoneHas : List PeerInfo → ℕ → Type 0
NoneHas [] id = Unit
NoneHas (p ∷ peers) id = (p.id ≢ u32 id) × NoneHas peers id

-- The address "ip:port" of the first node with this id; empty if none has it.
abbrev pub IsAddress : List PeerInfo → ℕ → Bytes → Type 0
IsAddress peers id addr =
    (NoneHas peers id × (addr ≡ []))
    ⊎ ((before after : List PeerInfo) × (p : PeerInfo) × (peers ≡ before ++ (p ∷ after))
        × NoneHas before id
        × (p.id ≡ u32 id)
        × (addr ≡ p.ip ++ (b':' ∷ to_string p.port)))

get_node_addr-IsAddress :
    (peers : List PeerInfo) (id : ℕ) → IsAddress peers id (get_node_addr peers id)
unfolding get_node_addr
get_node_addr-IsAddress [] id = inl (tt, refl)
get_node_addr-IsAddress (p ∷ peers) id = elim (Bool-cases (p.id == u32 id)) [
  | inl same ↦ inr ([], peers, p, refl, tt, ground (arith, same), rw same refl)
  | inr other ↦ elim (get_node_addr-IsAddress peers id) [
    | inr (before, after, q, e, none_before, has, addr) ↦ inr (
      p ∷ before,
      after,
      q,
      ap (λ ps. p ∷ ps) e,
      (ground (arith, other), none_before),
      has,
      rw other addr,
    )
    | inl (none_has, empty) ↦ inl ((ground (arith, other), none_has), rw other empty)
  ]
]

module _ (key : Bytes) (h : length key < 65536) where
  payload_length : read16 (route_payload key) 1 ≡ some (length key)
  unfolding read16
  payload_length = ap some (omega arith)

  payload_key : slice (route_payload key) 3 (length key) ≡ some key
  payload_key =
      rw (append-nil key) at
        (slice_past 3 (length key) (op_get_route ∷ be16 (u16 (length key))) key [] refl refl)

  handle_master_get_route-some :
      (peers : List PeerInfo) (table : Table) (t : Tablet)
      → get_tablet_route table.tablets key ≡ some (some t)
      → handle_master_get_route peers table (route_payload key)
        ≡ some (route_reply t table.epoch (get_node_addr peers t.node_id))
  unfolding handle_master_get_route
  handle_master_get_route-some peers table t e = ground (arith, payload_length, payload_key)

  -- A master whose tablets cut the key space answers GET_ROUTE for every key shorter than 2^16
  -- bytes, the empty one included, with [OK], the low byte of the id of the one tablet that contains
  -- the key, four bytes of the epoch, two bytes of the address's length and the address "ip:port" of
  -- the first node that has the tablet's node id, empty if none has it, and stays as it is.
  pub handle_get_route-owner :
      (level : LevelDb) (n : Node level)
      → is_master level n ≡ true
      → IsPartition n.table.tablets
      → (t : Tablet) × (addr : Bytes) × (owner key n.table.tablets ≡ some t)
        × (contains t key ≡ true)
        × (handle_binary_request level n (route_payload key)
            ≡ some (
              st_ok ∷ u8 t.id ∷ (be32 (u32 n.table.epoch) ++ (be16 (u16 (length addr)) ++ addr)),
              n,
            ))
        × IsAddress n.peers t.node_id addr
  unfolding handle_binary_request master_request
  handle_get_route-owner level n m c =
      let (t, r, o, k, _u) = get_tablet_route-owner n.table.tablets key c in
      (
        t,
        get_node_addr n.peers t.node_id,
        o,
        k,
        ground (arith, handle_master_get_route-some n.peers n.table t r),
        get_node_addr-IsAddress n.peers t.node_id,
      )
