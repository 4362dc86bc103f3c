-- ===== src/Routing/Route.antt =====
-- Every key has exactly one route through a partition, and FindTabletIndex finds it.
use le_kv.Base.{
  ℕ, zero, suc, ◌-◌, ◌<◌, ◌≤◌, true, not, ◌&&◌, Option, none, some, List, [], ◌∷◌, ◌≡◌, refl, ◌∙◌,
  if◌then◌else◌, arith, length, get_elem?, get_elem?-lt, get_elem?-none, map,
}
use le_kv.Bytes.{Bytes, lt_bytes, le_bytes, is_empty}
use le_kv.Bytes.Order.{not-lt_bytes-nil}
use le_kv.Routing.{
  Tablet, PeerInfo, Table, search_loop, find_tablet_index, get_tablet_route, data_nodes,
  first_tablet, second_tablet, initial_tablets, build_initial_tablets,
}
use le_kv.Routing.Search.{Below, Above, search_loop_total, search_loop-splits}
use le_kv.Routing.Partition.{
  IsPartition, CoversFrom-IsOrdered, CoversFrom-disjoint, contains, owner, splits-owner, splits-pos,
}

-- What GetTabletRoute makes of the result of the search.
abbrev pub checked : Bytes → Tablet → Option Tablet
checked key t = if not (is_empty t.end_key) && le_bytes t.end_key key then none else some t

pub route-found :
    (ts : List Tablet) (key : Bytes) (m : ℕ) (t : Tablet)
    → search_loop (λ t. t.start_key) ts key (length ts) 0 (length ts) ≡ some (suc m)
    → get_elem? ts m ≡ some t
    → m < length ts
    → get_tablet_route ts key ≡ some (checked key t)
unfolding get_tablet_route find_tablet_index
route-found [] key m t e g h = cc
route-found (t₀ ∷ rest) key m t e g h =
    let q : suc m - 1 ≡ m = omega arith in ground (arith, e, g, q)

route-missing :
    (ts : List Tablet) (key : Bytes)
    → search_loop (λ t. t.start_key) ts key (length ts) 0 (length ts) ≡ some 0
    → get_tablet_route ts key ≡ some none
unfolding get_tablet_route find_tablet_index
route-missing [] key e = refl
route-missing (t₀ ∷ rest) key e = ground (arith, e)

-- The search over a whole table.
module _ (ts : List Tablet) (key : Bytes) where
  whole_search :
      (n : ℕ) × (search_loop (λ t. t.start_key) ts key (length ts) 0 (length ts) ≡ some n)
      × (n ≤ length ts)
  whole_search =
      search_loop_total (λ t. t.start_key) ts key (length ts) 0 (length ts) (omega arith)
        (omega arith) (omega arith)

  whole_search-splits :
      (n : ℕ)
      → IsPartition ts
      → search_loop (λ t. t.start_key) ts key (length ts) 0 (length ts) ≡ some n
      → Below (λ t. t.start_key) ts key n × Above (λ t. t.start_key) ts key n
  whole_search-splits n c e =
      search_loop-splits (λ t. t.start_key) ts key (length ts) 0 (length ts) n
        (CoversFrom-IsOrdered [] ts c) (λ i a h p. elim h [ ])
        (λ i a h p. absurd (ground (arith, get_elem?-none i ts h))) e

  -- GetTabletRoute reads no tablet outside the table, whatever the table.
  pub get_tablet_route_total : (r : Option Tablet) × (get_tablet_route ts key ≡ some r)
  get_tablet_route_total = let (n, e, b) = whole_search in go n e b
    where
      go :
          (n : ℕ)
          → search_loop (λ t. t.start_key) ts key (length ts) 0 (length ts) ≡ some n
          → n ≤ length ts
          → (r : Option Tablet) × (get_tablet_route ts key ≡ some r)
      go zero e b = (none, route-missing ts key e)
      go (suc m) e b =
          let (t, g) = get_elem?-lt ts m b in (checked key t, route-found ts key m t e g b)

  route_at :
      (n : ℕ)
      → IsPartition ts
      → search_loop (λ t. t.start_key) ts key (length ts) 0 (length ts) ≡ some n
      → n ≤ length ts
      → (m : ℕ) × (t : Tablet) × (get_elem? ts m ≡ some t)
        × (get_tablet_route ts key ≡ some (some t))
        × (owner key ts ≡ some t)
        × (contains t key ≡ true)
  route_at zero c e b =
      absurd (splits-pos [] ts key c (not-lt_bytes-nil key) (whole_search-splits zero c e).1)
  route_at (suc m) c e b =
      let (lo, hi) = whole_search-splits (suc m) c e in
      let (t, g, o, k) = splits-owner [] ts key m c (not-lt_bytes-nil key) lo hi b in
      (m, t, g, route-found ts key m t e g b ∙ ground arith, o, k)

  -- In a partition a key is in one tablet.
  pub contains_unique :
      (i j : ℕ) (a b : Tablet)
      → IsPartition ts
      → get_elem? ts i ≡ some a
      → get_elem? ts j ≡ some b
      → contains a key ≡ true
      → contains b key ≡ true
      → a ≡ b
  contains_unique i j a b c p q k l =
      ground
        (arith, CoversFrom-disjoint [] ts key i j a b c, CoversFrom-disjoint [] ts key j i b a c)

  -- On a partition, FindTabletIndex and GetTabletRoute give every key the one tablet that contains
  -- it: the tablet that a scan of the table finds first, and the only one.
  pub get_tablet_route-owner :
      IsPartition ts
      → (t : Tablet) × (get_tablet_route ts key ≡ some (some t))
        × (owner key ts ≡ some t)
        × (contains t key ≡ true)
        × ((j : ℕ) (u : Tablet) → get_elem? ts j ≡ some u → contains u key ≡ true → u ≡ t)
  get_tablet_route-owner c =
      let (n, e, b) = whole_search in
      let (m, t, g, r, o, k) = route_at n c e b in
      (t, r, o, k, λ j u p q. contains_unique j m u t c p g q k)

-- What BuildInitialTablets makes of the data nodes and a table: a read out of range if there is one
-- node; nothing if there is none; else a table whose tablets cut the key space in two, on the first
-- two nodes, with the ids 1 and 2.
abbrev pub Initial : List ℕ → Table → Option Table → Type 0
Initial [] s r = r ≡ some s
Initial (n ∷ []) s r = r ≡ none
Initial (n ∷ m ∷ rest) s r =
    (t : Table) × (r ≡ some t)
    × IsPartition t.tablets
    × (t.next_tablet_id ≡ 3)
    × (map (λ x. x.id) t.tablets ≡ 1 ∷ 2 ∷ [])
    × (map (λ x. x.node_id) t.tablets ≡ n ∷ m ∷ [])

initial_tablets-Initial :
    (nodes : List ℕ) (s : Table) → s.tablets ≡ [] → Initial nodes s (initial_tablets nodes s)
unfolding initial_tablets lt_bytes
initial_tablets-Initial [] s e = refl
initial_tablets-Initial (n ∷ []) s e = refl
initial_tablets-Initial (n ∷ m ∷ rest) s e = (
  record { tablets = first_tablet n ∷ second_tablet m ∷ []; next_tablet_id = 3; epoch = 1 },
  ground (arith, e),
  (refl, refl, (refl, refl)),
  refl,
  refl,
  refl,
)

-- BuildInitialTablets on an empty table: with two data nodes or more it makes a partition of two
-- tablets on the first two, with ids below the next id; with none it changes nothing; with one it
-- reads outside its vector of data nodes.
pub build_initial_tablets-Initial :
    (peers : List PeerInfo) (s : Table)
    → s.tablets ≡ []
    → Initial (data_nodes peers) s (build_initial_tablets peers s)
unfolding build_initial_tablets
build_initial_tablets-Initial peers s e = initial_tablets-Initial (data_nodes peers) s e
