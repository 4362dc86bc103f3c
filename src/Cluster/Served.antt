-- ===== src/Cluster/Served.antt =====
-- What clients are served before and after a migration: the master routes a key to a data node, and
-- the data node looks it up.
use le_kv.Base.{
  ℕ, true, false, Option, none, some, ◌≡◌, ◌≢◌, refl, ap, sym, ◌∙◌, arith, ◌==◌, get_elem?,
  if◌then◌else◌, inl, inr, Bool-cases,
}
use le_kv.Bytes.{Bytes}
use le_kv.Storage
use le_kv.Storage.Api.{LevelDb}
use le_kv.Storage.Delete.{get-delete_range}
use le_kv.Storage.Range.{entries_in}
use le_kv.Master.{Master}
use le_kv.Master.Interface.{Env}
use le_kv.Dispatch.{Node}
use le_kv.Routing.{Table, Tablet, get_tablet_route}
use le_kv.Routing.Partition.{contains}
use le_kv.Routing.Route.{get_tablet_route-owner}
use le_kv.Balancer.Split.{IsTable, node_for}
use le_kv.Migration.{migrate_tablet, moved_table}
use le_kv.Migration.Tables.{migrate_tablet-IsTable}
use le_kv.Cluster.Nodes.{DataNodes}
use le_kv.Cluster.Scan.{IsUp, ScanFits}
use le_kv.Cluster.Stored.{DeletesSucceed, or_else, get_moved}
use le_kv.Cluster.Transfer.{PutsSucceed}
use le_kv.Cluster.Migrate.{Migrated, migrate_tablet-Migrated}

module _ (level : LevelDb) where
  -- The value of a key in the database of a node.
  unfoldable pub stored_on : Node level → Bytes → Option Bytes
  unfolding Storage.get
  stored_on n key = elim n.storage [ none ↦ none | some d ↦ Storage.get level d key ]

  -- The value that the node of the key's tablet holds: GetTabletRoute on the master, Get on the node.
  unfoldable pub served : (ℕ → Node level) → Table → Bytes → Option Bytes
  unfolding get_tablet_route stored_on
  served node table key = elim (get_tablet_route table.tablets key) [
    | none ↦ none
    | some r ↦ elim r [ none ↦ none | some t ↦ stored_on (node t.node_id) key ]
  ]

  stored_on-some :
      (n x : Node level) (d : level.Db) (key : Bytes)
      → x ≡ record n { storage = some d }
      → stored_on x key ≡ Storage.get level d key
  unfolding stored_on
  stored_on-some n x d key e = ap (λ y. stored_on y key) e

  -- On a sound table, a key is served by the node of its owner.
  served-node_for :
      (node : ℕ → Node level) (table : Table) (key : Bytes)
      → IsTable table
      → (id : ℕ) × (node_for key table ≡ some id)
        × (served node table key ≡ stored_on (node id) key)
        × ((i : ℕ) (t : Tablet)
            → get_elem? table.tablets i ≡ some t
            → contains t key ≡ true
            → t.node_id ≡ id)
  unfolding served
  served-node_for node table key v =
      let (t, route, first, inside, only) = get_tablet_route-owner table.tablets key v.partition in
      (
        t.node_id,
        rw first refl,
        rw (served, route) refl,
        λ i u p q. ap (λ x. x.node_id) (only i u p q),
      )

or_else-none : (x : Option Bytes) → or_else x none ≡ x
or_else-none none = refl
or_else-none (some v) = refl

module _ (env : Env) (level : LevelDb) (nodes : DataNodes env level)
    (deletes : DeletesSucceed level) (puts : PutsSucceed level) where
  open nodes use {node}

  module _ (idx : ℕ) (t : Tablet) (dst : ℕ) (n_src n_dst : Node level) (d_src d_dst : level.Db)
      (m m' : Master env) (away : t.node_id ≢ dst)
      (up_src : IsUp env level node m.world t.node_id n_src d_src)
      (up_dst : IsUp env level node m.world dst n_dst d_dst)
      (moved : Migrated env level nodes idx t dst n_src n_dst d_src d_dst m m') where
    stored_on-source :
        (key : Bytes)
        → stored_on level (node m'.world t.node_id) key
          ≡ (if contains t key then none else stored_on level (node m.world t.node_id) key)
    unfolding Storage.delete
    stored_on-source key =
        let before = stored_on-some level n_src _ d_src key up_src.stores in
        let after = stored_on-some level n_src _ _ key moved.source in
        rw before (after ∙ get-delete_range level d_src t.start_key t.end_key key deletes)

    stored_on-destination :
        (key : Bytes)
        → stored_on level (node m'.world dst) key ≡ (
            if contains t key
            then or_else
                (stored_on level (node m.world t.node_id) key)
                (stored_on level (node m.world dst) key)
            else stored_on level (node m.world dst) key)
    unfolding Storage.get
    stored_on-destination key =
        let src = stored_on-some level n_src _ d_src key up_src.stores in
        let before = stored_on-some level n_dst _ d_dst key up_dst.stores in
        let after = stored_on-some level n_dst _ _ key moved.destination in
        rw (src, before) (after ∙ get_moved level puts d_src d_dst t.start_key t.end_key key)

    -- A key outside the tablet is where it was.
    stored_on-outside :
        (key : Bytes) (id : ℕ)
        → contains t key ≡ false
        → stored_on level (node m'.world id) key ≡ stored_on level (node m.world id) key
    stored_on-outside key id out = elim (Bool-cases (id == t.node_id)) [
      | inl e ↦
          let same : id ≡ t.node_id = ground arith in rw same (rw out at (stored_on-source key))
      | inr ne ↦ elim (Bool-cases (id == dst)) [
        | inl e ↦
            let same : id ≡ dst = ground arith in rw same (rw out at (stored_on-destination key))
        | inr ne' ↦ ap (λ n. stored_on level n key) (moved.others id (ground arith) (ground arith))
      ]
    ]

    module _ (table : get_elem? m.table.tablets idx ≡ some t) (v : IsTable m.table)
        (v' : IsTable m'.table)
        (rerouted : (key : Bytes)
          → node_for key m'.table ≡ (if contains t key then some dst else node_for key m.table))
        (fresh : (key : Bytes)
          → contains t key ≡ true
          → stored_on level (node m.world dst) key ≡ none) where
      served_as_before :
          (key : Bytes)
          → served level (node m'.world) m'.table key ≡ served level (node m.world) m.table key
      served_as_before key =
          let (a, to_a, before, owned) = served-node_for level (node m.world) m.table key v in
          let (b, to_b, after, _o) = served-node_for level (node m'.world) m'.table key v' in
          let route = rerouted key in
          elim (Bool-cases (contains t key)) [
            | inl inside ↦
                let from_src : t.node_id ≡ a = owned idx t table inside in
                let to_dst : b ≡ dst = ground (arith, to_b, route, inside) in
                let gone = fresh key inside in
                let value = rw (inside, gone) at (stored_on-destination key) in
                let none_else = or_else-none (stored_on level (node m.world t.node_id) key) in
                after
                ∙ ap (λ x. stored_on level (node m'.world x) key) to_dst
                ∙ value
                ∙ none_else
                ∙ ap (λ x. stored_on level (node m.world x) key) from_src
                ∙ sym before
            | inr outside ↦
                let kept : b ≡ a = ground (arith, to_a, to_b, route, outside) in
                after
                ∙ ap (λ x. stored_on level (node m'.world x) key) kept
                ∙ stored_on-outside key a outside
                ∙ sym before
          ]

  -- If every Put and every Delete succeeds in every state of the database, the master's table is sound,
  -- and both data nodes are up and answer in time as their handlers do, then the migration of a tablet
  -- to another node returns true, if the entries of the tablet fit a response, the new table has a
  -- JSON text, and the destination holds no key of the tablet. Afterwards the table is sound, every key is served the value it was served before, and the node that the
  -- tablet was on holds no key of it.
  pub migrate_tablet-served :
      (idx : ℕ) (t : Tablet) (dst : ℕ) (n_src n_dst : Node level) (d_src d_dst : level.Db)
      (m : Master env) (text : Bytes)
      → IsTable m.table
      → get_elem? m.table.tablets idx ≡ some t
      → t.node_id ≢ dst
      → IsUp env level node m.world t.node_id n_src d_src
      → IsUp env level node m.world dst n_dst d_dst
      → ScanFits t.start_key t.end_key (entries_in level d_src t.start_key t.end_key)
      → env.dump (moved_table idx t dst m.table) ≡ some text
      → ((key : Bytes) → contains t key ≡ true → stored_on level (node m.world dst) key ≡ none)
      → (m' : Master env) × (migrate_tablet env idx dst m ≡ some (true, m'))
        × IsTable m'.table
        × ((key : Bytes)
            → served level (node m'.world) m'.table key ≡ served level (node m.world) m.table key)
        × ((key : Bytes)
            → contains t key ≡ true
            → stored_on level (node m'.world t.node_id) key ≡ none)
  migrate_tablet-served idx t dst n_src n_dst d_src d_dst m text v there away up_src up_dst fits
        written fresh =
      let (m', runs, moved) =
        migrate_tablet-Migrated env level nodes puts idx t dst n_src n_dst d_src d_dst m text there
          away up_src up_dst fits written in
      let (v', (u, there', rerouted)) = migrate_tablet-IsTable env idx dst m m' v runs in
      let same : u ≡ t = ground (arith, there, there') in
      (
        m',
        runs,
        v',
        served_as_before idx t dst n_src n_dst d_src d_dst m m' away up_src up_dst moved there v v'
            (rw same at rerouted) fresh,
        λ key inside.
            rw inside at (
              stored_on-source idx t dst n_src n_dst d_src d_dst m m' away up_src up_dst moved key),
      )
