-- ===== src/Cli/Route.antt =====
-- FindRoute on the client's copy of the routing table agrees with GetTabletRoute on the table.
use le_kv.Base.{
  ℕ, zero, suc, ◌+◌, ◌-◌, ◌/◌, ◌≤◌, not, ◌&&◌, Option, none, some, List, [], ◌∷◌, ◌≡◌, refl, ap,
  arith, length, get_elem?, get_elem?-lt, map, ltb, inl, inr, Bool-cases,
}
use le_kv.Bytes.{Bytes, is_empty, le_bytes}
use le_kv.Dispatch.{get_node_addr}
use le_kv.Routing.{PeerInfo, Tablet, search_loop, find_tablet_index, get_tablet_route}
use le_kv.Routing.Route.{checked, route-found}
use le_kv.Routing.Search.{search_loop_total}
use le_kv.Cli.{CachedTablet, route_found, find_route}

-- A tablet as the client keeps it: with the address of its node.
abbrev pub cached : List PeerInfo → Tablet → CachedTablet
cached peers t = record {
  id = t.id;
  start = t.start_key;
  end = t.end_key;
  addr = get_node_addr peers t.node_id;
}

length-map {ℓ κ} :
    {A : Type ℓ} {B : Type κ} (f : A → B) (xs : List A) → length (map f xs) ≡ length xs
length-map f [] = refl
length-map f (x ∷ xs) = ap suc (length-map f xs)

get_elem?-map {ℓ κ} :
    {A : Type ℓ} {B : Type κ} (f : A → B) (xs : List A) (i : ℕ) (x : A)
    → get_elem? xs i ≡ some x
    → get_elem? (map f xs) i ≡ some (f x)
get_elem?-map f [] i x e = cc
get_elem?-map f (y ∷ xs) zero x e = ground arith
get_elem?-map f (y ∷ xs) (suc i) x e = get_elem?-map f xs i x e

module _ (peers : List PeerInfo) where
  -- The client's search makes the same comparisons.
  search_loop-map :
      (ts : List Tablet) (key : Bytes) (fuel left right : ℕ)
      → right ≤ length ts
      → search_loop (λ t. t.start) (map (cached peers) ts) key fuel left right
        ≡ search_loop (λ t. t.start_key) ts key fuel left right
  unfolding search_loop
  search_loop-map ts key zero left right h = refl
  search_loop-map ts key (suc fuel) left right h = elim (Bool-cases (ltb left right)) [
    | inr done ↦ rw (done, search_loop) refl
    | inl more ↦
        let mid = left + (right - left) / 2 in
        let (t, g) = get_elem?-lt ts mid (ground arith) in
        let g' = get_elem?-map (cached peers) ts mid t g in
        elim (Bool-cases (le_bytes t.start_key key)) [
          | inl c ↦ ground (arith, g, g', search_loop-map ts key fuel (mid + 1) right h)
          | inr c ↦
              let low = search_loop-map ts key fuel left mid (ground arith) in
              ground (arith, g, g', low)
        ]
  ]

  -- What FindRoute makes of the result of GetTabletRoute.
  abbrev pub addr_of : Option Tablet → Option Bytes
  addr_of none = none
  addr_of (some t) = some (get_node_addr peers t.node_id)

  found_addr :
      (t₀ : Tablet) (rest : List Tablet) (key : Bytes) (n : ℕ) (t : Tablet)
      → get_elem? (map (cached peers) (t₀ ∷ rest)) n ≡ some (cached peers t)
      → route_found (map (cached peers) (t₀ ∷ rest)) key (suc n) ≡ some (addr_of (checked key t))
  found_addr t₀ rest key n t g =
      elim (Bool-cases (not (is_empty t.end_key) && le_bytes t.end_key key)) [
        | inl over ↦ ground (arith, g)
        | inr under ↦ ground (arith, g)
      ]

  route_found-same :
      (t₀ : Tablet) (rest : List Tablet) (key : Bytes) (n : ℕ)
      → search_loop (λ t. t.start_key) (t₀ ∷ rest) key (length (t₀ ∷ rest)) 0 (length (t₀ ∷ rest))
        ≡ some n
      → n ≤ length (t₀ ∷ rest)
      → (r : Option Tablet) × (get_tablet_route (t₀ ∷ rest) key ≡ some r)
        × (route_found (map (cached peers) (t₀ ∷ rest)) key n ≡ some (addr_of r))
  unfolding get_tablet_route find_tablet_index
  route_found-same t₀ rest key zero e h = (none, ground (arith, e), refl)
  route_found-same t₀ rest key (suc n) e h =
      let (t, g) = get_elem?-lt (t₀ ∷ rest) n h in
      let g' = get_elem?-map (cached peers) (t₀ ∷ rest) n t g in
      (checked key t, route-found (t₀ ∷ rest) key n t e g h, found_addr t₀ rest key n t g')

  -- FindRoute on the client's copy of a table gives the address of the node of the tablet that
  -- GetTabletRoute finds, and none exactly if it finds none, whatever the table.
  pub find_route-get_tablet_route :
      (ts : List Tablet) (key : Bytes)
      → (r : Option Tablet) × (get_tablet_route ts key ≡ some r)
        × (find_route (map (cached peers) ts) key ≡ some (addr_of r))
  unfolding find_route get_tablet_route
  find_route-get_tablet_route [] key = (none, refl, refl)
  find_route-get_tablet_route (t₀ ∷ rest) key =
      let (n, e, b) =
        search_loop_total (λ t. t.start_key) (t₀ ∷ rest) key (length (t₀ ∷ rest)) 0
          (length (t₀ ∷ rest)) (omega arith) (omega arith) (omega arith) in
      let (r, g, f) = route_found-same t₀ rest key n e b in
      let same =
        search_loop-map (t₀ ∷ rest) key (length (t₀ ∷ rest)) 0 (length (t₀ ∷ rest)) (omega arith) in
      let sizes = length-map (cached peers) rest in (r, g, rw (sizes, same, e) f)
