-- ===== src/Boot/Construct.antt =====
-- The routing table of a master that was constructed.
use le_kv.Base.{
  suc, ◌≤◌, true, false, Option, none, some, List, [], ◌∷◌, ◌≡◌, ◌==◌, refl, ◌∙◌, arith, ◌⊎◌, inl,
  inr, Bool-cases, Option-cases, length,
}
use le_kv.Bytes.{Bytes, lt_bytes}
use le_kv.Exec.{>>=-some}
use le_kv.Routing.{
  PeerInfo, Table, leader_port, data_nodes, initial_tablets, build_initial_tablets, first_tablet,
  second_tablet,
}
use le_kv.Balancer.Split.{IsTable}
use le_kv.Master.{Master, load_tablets, save_tablets}
use le_kv.Master.Interface.{Env}
use le_kv.Boot.{connect_all, unless_loaded, construct_master}
use le_kv.Boot.Peers.{IsCluster}

-- The table that BuildInitialTablets makes for followers with ids from 2 on.
abbrev pub first_table : Table
first_table = record {
  tablets = first_tablet 2 ∷ second_tablet 3 ∷ [];
  next_tablet_id = 3;
  epoch = 1;
}

first_table-IsTable : IsTable first_table
unfolding lt_bytes
first_table-IsTable = record {
  partition = (refl, refl, (refl, refl));
  below = omega arith;
  distinct = omega arith;
}

build-first_table :
    (ps : List PeerInfo) (t : Table)
    → IsCluster ps
    → 3 ≤ length ps
    → t.tablets ≡ []
    → build_initial_tablets ps t ≡ some first_table
unfolding build_initial_tablets data_nodes initial_tablets
build-first_table [] t c h e = absurd c
build-first_table (m ∷ []) t c h e = absurd (omega arith)
build-first_table (m ∷ p ∷ []) t c h e = absurd (omega arith)
build-first_table (m ∷ p ∷ q ∷ ps) t (_one, leads, (two, apart, (three, apart', _rest))) h e =
    let m_no : (m.port == leader_port) ≡ true = ground arith in
    let p_no : (p.port == leader_port) ≡ false = ground arith in
    let q_no : (q.port == leader_port) ≡ false = ground arith in
    let some_nodes : (suc (suc (length (data_nodes ps))) == 0) ≡ false = ground arith in
    rw (m_no, p_no, q_no, two, three, e, some_nodes) refl

-- There is no file, or its text has no table.
abbrev pub NoTable : (env : Env) → Option Bytes → Type 0
NoTable env file = (file ≡ none) ⊎ ((text : Bytes) × (file ≡ some text) × (env.parse text ≡ none))

-- The table is what the file held, or the first table where it held none.
abbrev pub Constructed : (env : Env) → Option Bytes → Table → Type 0
Constructed env file t =
    ((text : Bytes) × (file ≡ some text) × (env.parse text ≡ some t))
    ⊎ (NoTable env file × (t ≡ first_table) × IsTable t)

module _ (env : Env) (connect : PeerInfo → env.World → env.World) where
  save-any :
      (m : Master env) (text : Bytes)
      → env.dump m.table ≡ some text
      → (m' : Master env) × (save_tablets env m ≡ some (tt, m')) × (m'.table ≡ m.table)
  unfolding save_tablets
  save-any m text d = elim (Bool-cases (env.can_open m.world)) [
    | inl ready ↦
        (record m { world = env.replace_file m.world text }, ground (arith, ready, d), refl)
    | inr shut ↦ (m, ground (arith, shut), refl)
  ]

  build_and_save :
      (ps : List PeerInfo) (m : Master env) (text : Bytes)
      → IsCluster ps
      → 3 ≤ length ps
      → m.table.tablets ≡ []
      → env.dump first_table ≡ some text
      → (m' : Master env) × (unless_loaded env ps false m ≡ some (tt, m'))
        × (m'.table ≡ first_table)
  unfolding unless_loaded
  build_and_save ps m text c h e d =
      let (m', saved, same) = save-any (record m { table = first_table }) text d in
      (m', rw (build-first_table ps m.table c h e) saved, same)

  load-none : (m : Master env) → env.file m.world ≡ none → load_tablets env m ≡ some (false, m)
  unfolding load_tablets
  load-none m e = ground (arith, e)

  load-some :
      (m : Master env) (text : Bytes) (t : Table)
      → env.file m.world ≡ some text
      → env.parse text ≡ some t
      → load_tablets env m ≡ some (true, record m { table = t })
  unfolding load_tablets
  load-some m text t e p = ground (arith, e, p)

  load-bad :
      (m : Master env) (text : Bytes)
      → env.file m.world ≡ some text
      → env.parse text ≡ none
      → load_tablets env m
        ≡ some (false, record m { table = record { tablets = []; next_tablet_id = 3; epoch = 1 } })
  unfolding load_tablets
  load-bad m text e p = ground (arith, e, p)

  -- The constructor on the master of a cluster with two data nodes or more returns, if no tablet is
  -- there before and the first table has a JSON text: its routing table is the one that the file
  -- holds, or, if there is no file or its text has no table, the sound first table, with its two
  -- tablets on the nodes 2 and 3.
  pub construct_master-Constructed :
      (ps : List PeerInfo) (m : Master env) (text : Bytes)
      → IsCluster ps
      → 3 ≤ length ps
      → m.table.tablets ≡ []
      → env.dump first_table ≡ some text
      → (m' : Master env) × (construct_master env connect ps m ≡ some (tt, m'))
        × Constructed env (env.file (connect_all env connect ps m.world)) m'.table
  unfolding construct_master unless_loaded
  construct_master-Constructed ps m text c h e d = go (env.file w) refl
    where
      w : env.World
      w = connect_all env connect ps m.world

      x : Master env
      x = record m { world = w }

      go :
          (file : Option Bytes)
          → env.file w ≡ file
          → (m' : Master env) × (construct_master env connect ps m ≡ some (tt, m'))
            × Constructed env file m'.table
      go none p =
          let (m', built, same) = build_and_save ps x text c h e d in
          (
            m',
            >>=-some (load_tablets env) (unless_loaded env ps) x x false (load-none x p) ∙ built,
            inr (inl refl, same, rw same first_table-IsTable),
          )
      go (some saved) p = elim (Option-cases (env.parse saved)) [
        | inr (t, q) ↦ (
          record x { table = t },
          >>=-some (load_tablets env) (unless_loaded env ps) x (record x { table = t }) true
              (load-some x saved t p q),
          inl (saved, refl, q),
        )
        | inl bad ↦
            let empty : Table = record { tablets = []; next_tablet_id = 3; epoch = 1 } in
            let x' : Master env = record x { table = empty } in
            let (m', built, same) = build_and_save ps x' text c h refl d in
            (
              m',
              >>=-some (load_tablets env) (unless_loaded env ps) x x' false (load-bad x saved p bad)
                  ∙ built,
              inr (inr (saved, refl, bad), same, rw same first_table-IsTable),
            )
      ]
