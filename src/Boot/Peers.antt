-- ===== src/Boot/Peers.antt =====
-- The peers of a node that starts, and its place among them.
use le_kv.Base.{
  ℕ, suc, ◌+◌, Bool, Option, none, some, List, [], ◌∷◌, ◌≡◌, ◌≢◌, ◌==◌, refl, sym, ◌∙◌, arith, inl,
  inr, Bool-cases, Option-cases, get_elem?, length, ltb,
}
use le_kv.Bytes.{Bytes}
use le_kv.Routing.{PeerInfo}
use le_kv.Boot.{
  ConfigFile, read_master_config, followers_from, read_followers_config, find_self_node_id,
  read_peers, port_of, main_start, constructs, start_at, master_port,
}

-- Data nodes with the ids from a number on.
abbrev pub AreFollowers : ℕ → List PeerInfo → Type 0
AreFollowers id [] = Unit
AreFollowers id (p ∷ ps) = (p.id ≡ id) × (p.port ≢ master_port) × AreFollowers (id + 1) ps

-- The master, with id 1 on its port, and data nodes with the ids from 2 on, on other ports.
abbrev pub IsCluster : List PeerInfo → Type 0
IsCluster [] = ⊥
IsCluster (p ∷ ps) = (p.id ≡ 1) × (p.port ≡ master_port) × AreFollowers 2 ps

followers_from-AreFollowers :
    (configs : List (Bytes × ℕ)) (id : ℕ) (ps : List PeerInfo)
    → followers_from id configs ≡ some ps
    → AreFollowers id ps
unfolding followers_from
followers_from-AreFollowers [] id ps e = let same : [] ≡ ps = cc in rw (← same) tt
followers_from-AreFollowers (c ∷ configs) id ps e = elim (Bool-cases (c.1 == master_port)) [
  | inl same ↦ absurd (ground (arith, rw same at e))
  | inr other ↦ elim (Option-cases (followers_from (id + 1) configs)) [
    | inl thrown ↦ absurd (ground (arith, rw (other, thrown) at e))
    | inr (rest, f) ↦
        let later = followers_from-AreFollowers configs (id + 1) rest f in
        let whole : record { id = id; ip = c.0; port = c.1 } ∷ rest ≡ ps =
          ground (arith, rw (other, f) at e) in
        rw (← whole) (refl, ground arith, later)
  ]
]

read_master_config-master :
    (file : ConfigFile) (p : PeerInfo)
    → read_master_config file ≡ some p
    → (p.id ≡ 1) × (p.port ≡ master_port)
unfolding read_master_config
read_master_config-master file p e = elim (Bool-cases file.is_open) [
  | inr shut ↦ absurd (ground (arith, rw shut at e))
  | inl ready ↦ elim (Option-cases file.master) [
    | inl thrown ↦ absurd (ground (arith, rw (ready, thrown) at e))
    | inr (c, f) ↦ elim (Bool-cases (c.1 == master_port)) [
      | inr other ↦ absurd (ground (arith, rw (ready, f, other) at e))
      | inl same ↦
          let q : record { id = 1; ip = c.0; port = c.1 } ≡ p =
            ground (arith, rw (ready, f, same) at e) in
          rw (← q) (refl, ground arith)
    ]
  ]
]

read_followers_config-AreFollowers :
    (file : ConfigFile) (ps : List PeerInfo)
    → read_followers_config file ≡ some ps
    → AreFollowers 2 ps
unfolding read_followers_config
read_followers_config-AreFollowers file ps e = elim (Bool-cases file.is_open) [
  | inr shut ↦ absurd (ground (arith, rw shut at e))
  | inl ready ↦ elim (Option-cases file.followers) [
    | inl thrown ↦ absurd (ground (arith, rw (ready, thrown) at e))
    | inr (configs, f) ↦ followers_from-AreFollowers configs 2 ps (rw (ready, f) at e)
  ]
]

read_peers-IsCluster :
    (file : ConfigFile) (ps : List PeerInfo) → read_peers file ≡ some ps → IsCluster ps
unfolding read_peers
read_peers-IsCluster file ps e = elim (Option-cases (read_master_config file)) [
  | inl thrown ↦ absurd (ground (arith, rw thrown at e))
  | inr (m, f) ↦ elim (Option-cases (read_followers_config file)) [
    | inl thrown ↦ absurd (ground (arith, rw (f, thrown) at e))
    | inr (rest, g) ↦
        let q : m ∷ rest ≡ ps = ground (arith, rw (f, g) at e) in
        let (one, port) = read_master_config-master file m f in
        rw (← q) (one, port, read_followers_config-AreFollowers file rest g)
  ]
]

-- The node's id is that of a peer with its port, and its place in the list.
abbrev pub IsAt : ℕ → ℕ → ℕ → List PeerInfo → Type 0
IsAt from node_id port ps =
    (i : ℕ) × (p : PeerInfo) × (get_elem? ps i ≡ some p) × (p.port ≡ port) × (node_id ≡ from + i)

find-IsAt :
    (ps : List PeerInfo) (id node_id port : ℕ)
    → AreFollowers id ps
    → find_self_node_id ps port ≡ some node_id
    → (port ≢ master_port) × IsAt id node_id port ps
unfolding find_self_node_id
find-IsAt [] id node_id port f e = cc
find-IsAt (p ∷ ps) id node_id port f e = elim (Bool-cases (p.port == port)) [
  | inl same ↦
      let there : p.port ≡ port = ground arith in
      let mine : p.id ≡ node_id = ground (arith, rw same at e) in
      (λ x. f.1 (there ∙ x), (0, p, refl, there, omega arith))
  | inr other ↦
      let (away, (i, q, g, there, n)) = find-IsAt ps (id + 1) node_id port f.2 (rw other at e) in
      (away, (suc i, q, g, there, omega arith))
]

-- The node is the peer in its place, and the master if it is the first.
abbrev pub IsPeer : ℕ → ℕ → List PeerInfo → Type 0
IsPeer node_id port ps = IsAt 1 node_id port ps × ((port == master_port) ≡ (node_id == 1))

find-IsPeer :
    (ps : List PeerInfo) (node_id port : ℕ)
    → IsCluster ps
    → find_self_node_id ps port ≡ some node_id
    → IsPeer node_id port ps
unfolding find_self_node_id
find-IsPeer [] node_id port c e = cc
find-IsPeer (p ∷ ps) node_id port c e = elim (Bool-cases (p.port == port)) [
  | inl same ↦
      let there : p.port ≡ port = ground arith in
      let mine : p.id ≡ node_id = ground (arith, rw same at e) in
      let leads : port ≡ master_port = sym there ∙ c.1 in
      let one : node_id ≡ 1 = sym mine ∙ c.0 in
      ((0, p, refl, there, omega arith), rw (leads, one) refl)
  | inr other ↦
      let (away, (i, q, g, there, n)) = find-IsAt ps 2 node_id port c.2 (rw other at e) in
      ((suc i, q, g, there, omega arith), ground arith)
]

start_at-IsCluster :
    (r : Option (List PeerInfo)) (port0 node_id port : ℕ) (ps : List PeerInfo)
    → start_at port0 r ≡ constructs node_id port ps
    → ((qs : List PeerInfo) → r ≡ some qs → IsCluster qs)
    → IsCluster ps × IsPeer node_id port ps
start_at-IsCluster none port0 node_id port ps e h = cc
start_at-IsCluster (some qs) port0 node_id port ps e h =
    elim (Option-cases (find_self_node_id qs port0)) [
      | inl missing ↦ absurd (ground (arith, rw (start_at, missing) at e))
      | inr (id, f) ↦
          let same : constructs id port0 qs ≡ constructs node_id port ps = rw (start_at, f) at e in
          let i : id ≡ node_id = cc in
          let p : port0 ≡ port = cc in
          let q : qs ≡ ps = cc in
          let c = h qs refl in
          let found : IsCluster qs × IsPeer id port0 qs = (c, find-IsPeer qs id port0 c f) in
          rw (q, i, p) at found
    ]

-- A node that `main` constructs is one of the peers, whose ids are 1, 2, and so on in their order: its
-- id and port are those of the peer in its place, and its port is the master's exactly if its id is
-- 1. The first peer is the master, and no other peer has its port.
pub main_start-IsCluster :
    (signals : Bool) (stoul : Bytes → Option ℕ) (args : List Bytes) (file : ConfigFile)
    (node_id port : ℕ) (ps : List PeerInfo)
    → main_start signals stoul args file ≡ constructs node_id port ps
    → IsCluster ps × IsPeer node_id port ps
unfolding main_start
main_start-IsCluster signals stoul args file node_id port ps e =
    elim (Bool-cases (ltb 1 (length args))) [
      | inl many ↦ absurd (ground (arith, rw many at e))
      | inr few ↦ elim (Bool-cases signals) [
        | inr failed ↦ absurd (ground (arith, rw (few, failed) at e))
        | inl ready ↦ elim (Option-cases (port_of stoul args)) [
          | inl thrown ↦ absurd (ground (arith, rw (few, ready, thrown) at e))
          | inr (p, f) ↦
              start_at-IsCluster (read_peers file) p node_id port ps (rw (few, ready, f) at e)
                (read_peers-IsCluster file)
        ]
      ]
    ]
