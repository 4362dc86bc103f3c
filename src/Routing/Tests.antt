-- ===== src/Routing/Tests.antt =====
-- Runs of the routing table, and each theorem about it at an input.
use le_kv.Base.{ℕ, true, some, List, [], ◌∷◌, ◌≡◌, refl, get_elem?}
use le_kv.Bytes.{lt_bytes}
use le_kv.Routing.{
  Tablet, PeerInfo, Table, search_loop, find_tablet_index, get_tablet_route, data_nodes,
  build_initial_tablets, first_tablet, second_tablet,
}
use le_kv.Routing.Partition.{IsPartition, owner, contains}
use le_kv.Routing.Route.{get_tablet_route-owner, Initial, build_initial_tablets-Initial}

abbrev two : List Tablet
two = first_tablet 2 ∷ second_tablet 3 ∷ []

two-IsPartition : IsPartition two
unfolding lt_bytes
two-IsPartition = (refl, refl, (refl, refl))

route_k : get_tablet_route two (b'k' ∷ []) ≡ some (some (first_tablet 2))
unfolding get_tablet_route find_tablet_index search_loop lt_bytes
route_k = refl

get_tablet_route-owner_example :
    (t : Tablet) × (get_tablet_route two (b'k' ∷ []) ≡ some (some t))
    × (owner (b'k' ∷ []) two ≡ some t)
    × (contains t (b'k' ∷ []) ≡ true)
    × ((j : ℕ) (u : Tablet) → get_elem? two j ≡ some u → contains u (b'k' ∷ []) ≡ true → u ≡ t)
get_tablet_route-owner_example = get_tablet_route-owner two (b'k' ∷ []) two-IsPartition

abbrev peers : List PeerInfo
peers =
    record { id = 1; ip = []; port = 9001 }
    ∷ record { id = 2; ip = []; port = 9002 }
    ∷ record { id = 3; ip = []; port = 9003 }
    ∷ []

abbrev no_table : Table
no_table = record { tablets = []; next_tablet_id = 3; epoch = 1 }

build_initial_tablets-Initial_example :
    Initial (data_nodes peers) no_table (build_initial_tablets peers no_table)
build_initial_tablets-Initial_example = build_initial_tablets-Initial peers no_table refl

build_run :
    build_initial_tablets peers no_table
    ≡ some (record { tablets = two; next_tablet_id = 3; epoch = 1 })
unfolding build_initial_tablets
build_run = refl
