-- ===== src/Cluster/Balance.antt =====
-- A balancing step between data nodes that are up.
use le_kv.Base.{
  ℕ, zero, suc, ◌+◌, ◌<◌, true, none, some, List, [], ◌∷◌, ◌≡◌, ◌≢◌, refl, ap, ◌∙◌, arith,
  get_elem?, set,
}
use le_kv.Bytes.{Bytes}
use le_kv.Bytes.Endian.{u64}
use le_kv.Exec.{pure, >>=-some}
use le_kv.Storage.Api.{LevelDb}
use le_kv.Storage.Range.{entries_in}
use le_kv.Master.{Master}
use le_kv.Master.Interface.{Env}
use le_kv.Dispatch.{Node}
use le_kv.Routing.{Table, Tablet}
use le_kv.Routing.Partition.{contains}
use le_kv.Balancer.Split.{IsTable}
use le_kv.Migration.{
  migrate_tablet, moved_table, count_move, move_chosen, do_load_balance, choose_move,
}
use le_kv.Migration.Load.{load_on}
use le_kv.Migration.Choice.{IsBalancing, choose_move-IsBalancing}
use le_kv.Migration.Tables.{DidMove, migrate_tablet-DidMove}
use le_kv.Cluster.Nodes.{DataNodes}
use le_kv.Cluster.Scan.{IsUp, ScanFits}
use le_kv.Cluster.Stored.{DeletesSucceed}
use le_kv.Cluster.Transfer.{PutsSucceed}
use le_kv.Cluster.Served.{stored_on, served, migrate_tablet-served}

get_elem?-set :
    {A : Type 0} (xs : List A) (i : ℕ) (x y : A)
    → get_elem? xs i ≡ some x
    → get_elem? (set xs i y) i ≡ some y
get_elem?-set [] i x y g = cc
get_elem?-set (z ∷ xs) zero x y g = refl
get_elem?-set (z ∷ xs) (suc i) x y g = get_elem?-set xs i x y g

-- The tablet that is moved is on another node.
IsBalancing-away :
    (ts : List Tablet) (idx dst : ℕ) (t : Tablet)
    → IsBalancing ts idx dst
    → get_elem? ts idx ≡ some t
    → t.node_id ≢ dst
IsBalancing-away ts idx dst t (u, g, _p, _l, gap, _e) there same =
    let one : u ≡ t = cc in
    let loads : load_on u.node_id ts ≡ load_on dst ts =
      ap (λ x. load_on x ts) (ap (λ x. x.node_id) one ∙ same) in
    omega arith

module _ (env : Env) where
  count_move-same :
      (idx : ℕ) (before : env.World) (m : Master env) (t : Tablet)
      → get_elem? m.table.tablets idx ≡ some t
      → (m' : Master env) × (count_move env idx before m ≡ some (tt, m'))
        × (m'.table ≡ m.table)
        × (m'.world ≡ m.world)
  unfolding count_move
  count_move-same idx before m t g = (
    record m {
      transfer_count = u64 (m.transfer_count + t.key_count);
      transfer_time_ms = u64 (m.transfer_time_ms + env.elapsed_ms before m.world);
    },
    rw g refl,
    refl,
    refl,
  )

  moved-there :
      (idx dst : ℕ) (t t' : Table)
      → DidMove env idx dst true t t'
      → (x : Tablet) × (get_elem? t'.tablets idx ≡ some x)
  unfolding moved_table
  moved-there idx dst t t' (moved, g, _away, e) = (
    record moved { node_id = dst },
    ap (λ x. get_elem? x.tablets idx) e
        ∙ get_elem?-set t.tablets idx moved (record moved { node_id = dst }) g,
  )

  -- A balancing step whose migration returns.
  do_load_balance_runs :
      (idx dst : ℕ) (m m1 m' : Master env)
      → choose_move m.table.tablets ≡ some (idx, dst)
      → migrate_tablet env idx dst m ≡ some (true, m1)
      → count_move env idx m.world m1 ≡ some (tt, m')
      → do_load_balance env m ≡ some (true, m')
  unfolding do_load_balance move_chosen
  do_load_balance_runs idx dst m m1 m' chosen moved counted = rw chosen (
      >>=-some (migrate_tablet env idx dst) _ m m1 true moved
      ∙ >>=-some (count_move env idx m.world) (λ _. pure true) m1 m' tt counted)

module _ (env : Env) (level : LevelDb) (nodes : DataNodes env level)
    (deletes : DeletesSucceed level) (puts : PutsSucceed level) where
  open nodes use {node}

  -- If every Put and every Delete succeeds in every state of the database, the master's table is sound
  -- and counts fewer than 2^64 keys on each node, and both data nodes are up and answer in time as
  -- their handlers do, then DoLoadBalance returns true if it chooses a tablet, the entries of the
  -- tablet fit a response, the new table has a JSON text, and the destination holds no key of the
  -- tablet. Afterwards the table is sound, every key is served the value it was served
  -- before, and the node that the tablet was on holds no key of it.
  pub do_load_balance-served :
      (idx : ℕ) (t : Tablet) (dst : ℕ) (n_src n_dst : Node level) (d_src d_dst : level.Db)
      (m : Master env) (text : Bytes)
      → IsTable m.table
      → ((n : ℕ) → load_on n m.table.tablets < 18446744073709551616)
      → choose_move m.table.tablets ≡ some (idx, dst)
      → get_elem? m.table.tablets idx ≡ some t
      → IsUp env level node m.world t.node_id n_src d_src
      → IsUp env level node m.world dst n_dst d_dst
      → ScanFits t.start_key t.end_key (entries_in level d_src t.start_key t.end_key)
      → env.dump (moved_table idx t dst m.table) ≡ some text
      → ((key : Bytes) → contains t key ≡ true → stored_on level (node m.world dst) key ≡ none)
      → (m' : Master env) × (do_load_balance env m ≡ some (true, m'))
        × IsTable m'.table
        × ((key : Bytes)
            → served level (node m'.world) m'.table key ≡ served level (node m.world) m.table key)
        × ((key : Bytes)
            → contains t key ≡ true
            → stored_on level (node m'.world t.node_id) key ≡ none)
  do_load_balance-served idx t dst n_src n_dst d_src d_dst m text v loads chosen there up_src up_dst
        fits written fresh =
      let ts = m.table.tablets in
      let away =
        IsBalancing-away ts idx dst t (choose_move-IsBalancing ts loads idx dst chosen) there in
      let (m1, runs, v1, kept, gone) =
        migrate_tablet-served env level nodes deletes puts idx t dst n_src n_dst d_src d_dst m text
          v there away up_src up_dst fits written fresh in
      let (x, g) =
        moved-there env idx dst m.table m1.table
          (migrate_tablet-DidMove env idx dst m m1 true runs) in
      let (m', counted, table, world) = count_move-same env idx m.world m1 x g in
      (
        m',
        do_load_balance_runs env idx dst m m1 m' chosen runs counted,
        rw table v1,
        λ key. rw (table, world) (kept key),
        λ key inside. rw world (gone key inside),
      )
