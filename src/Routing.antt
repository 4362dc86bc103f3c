-- ===== src/Routing.antt =====
-- common/common.h (Tablet, PeerInfo) and the routing table of kv/raft_node.cpp: the binary search
-- for a key, the route of a key, the initial tablets and the address of a node.
pub mod Search
pub mod Partition
pub mod Route
mod Tests
use le_kv.Base.{
  ℕ, zero, suc, ◌+◌, ◌-◌, ◌/◌, Bool, true, false, not, ◌&&◌, ◌||◌, Option, none, some, List, [],
  ◌∷◌, ◌++◌, ◌==◌, ltb, leb, if◌then◌else◌, length, get_elem?, ◌>>=◌,
}
use le_kv.Bytes.{Bytes, lt_bytes, le_bytes, is_empty}
use le_kv.Bytes.Endian.{u32}

-- PeerInfo
pub record PeerInfo : Type 0 where
  pub id : ℕ
  pub ip : Bytes
  pub port : ℕ

-- Tablet: the keys in [start_key, end_key), kept by the node `node_id`.
pub record Tablet : Type 0 where
  pub id : ℕ
  pub start_key : Bytes
  pub end_key : Bytes
  pub node_id : ℕ
  pub key_count : ℕ

abbrev pub leader_port : ℕ
leader_port = 9001

-- The binary search for the first element whose start is above `key`, as FindTabletIndex and the
-- client's FindRoute write it, over any vector. `none` is a read out of range, or fuel too short.
module _ {ℓ} {A : Type ℓ} (start_of : A → Bytes) (xs : List A) (key : Bytes) where
  unfoldable pub search_loop : ℕ → ℕ → ℕ → Option ℕ
  search_loop zero left right = if ltb left right then none else some left
  search_loop (suc fuel) left right =
      let mid = left + (right - left) / 2 in
      elim (ltb left right) [
        | false ↦ some left
        | true ↦ elim (get_elem? xs mid) [
          | none ↦ none
          | some t ↦ elim (le_bytes (start_of t) key) [
            | true ↦ search_loop fuel (mid + 1) right
            | false ↦ search_loop fuel left mid
          ]
        ]
      ]

-- FindTabletIndex: the last tablet that starts at or below the key, or the size of the table.
unfoldable pub find_tablet_index : List Tablet → Bytes → Option ℕ
find_tablet_index tablets key = do
  left ← search_loop (λ t. t.start_key) tablets key (length tablets) 0 (length tablets)
  some (if left == 0 then length tablets else left - 1)

-- GetTabletRoute. The outer `none` is a read out of range, the inner one the result false.
unfoldable pub get_tablet_route : List Tablet → Bytes → Option (Option Tablet)
get_tablet_route [] key = some none
get_tablet_route (t₀ ∷ rest) key = do
  idx ← find_tablet_index (t₀ ∷ rest) key
  if leb (length (t₀ ∷ rest)) idx then some none else do
    t ← get_elem? (t₀ ∷ rest) idx
    some (if not (is_empty t.end_key) && le_bytes t.end_key key then none else some t)

-- The ids of the peers that are data nodes, in a `std::vector<uint32_t>`.
unfoldable pub data_nodes : List PeerInfo → List ℕ
data_nodes [] = []
data_nodes (p ∷ peers) =
    if not (p.port == leader_port) then u32 p.id ∷ data_nodes peers else data_nodes peers

-- The part of the master's state that BuildInitialTablets, splits and migrations change.
pub record Table : Type 0 where
  pub tablets : List Tablet
  pub next_tablet_id : ℕ
  pub epoch : ℕ

-- `t1` and `t2` of BuildInitialTablets.
abbrev pub first_tablet : ℕ → Tablet
first_tablet n = record { id = 1; start_key = []; end_key = b'm' ∷ []; node_id = n; key_count = 0 }

abbrev pub second_tablet : ℕ → Tablet
second_tablet n = record { id = 2; start_key = b'm' ∷ []; end_key = []; node_id = n; key_count = 0 }

-- The rest of BuildInitialTablets, given the data nodes. `none` is the read of the second node
-- where there is only one.
unfoldable pub initial_tablets : List ℕ → Table → Option Table
initial_tablets nodes s = if length nodes == 0 then some s else do
  first ← get_elem? nodes 0
  second ← get_elem? nodes 1
  some (record {
    tablets = s.tablets ++ (first_tablet first ∷ second_tablet second ∷ []);
    next_tablet_id = 3;
    epoch = 1;
  })

-- BuildInitialTablets: ["", "m") on the first data node and ["m", "") on the second.
unfoldable pub build_initial_tablets : List PeerInfo → Table → Option Table
unfolding data_nodes initial_tablets
build_initial_tablets peers s = initial_tablets (data_nodes peers) s
