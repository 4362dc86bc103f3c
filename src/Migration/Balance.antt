-- ===== src/Migration/Balance.antt =====
-- A balancing step keeps the routing table sound.
use le_kv.Base.{
  ℕ, Bool, true, false, Option, none, some, ◌≡◌, ap, sym, ◌∙◌, arith, get_elem?, if◌then◌else◌,
}
use le_kv.Bytes.{Bytes}
use le_kv.Exec.{pure, gets, ◌>>=◌, ◌>>◌}
use le_kv.Exec
use le_kv.Master.{Master}
use le_kv.Master.Interface.{Env}
use le_kv.Routing.{Tablet, Table}
use le_kv.Routing.Partition.{contains}
use le_kv.Balancer.Split.{IsTable, node_for}
use le_kv.Migration.{
  migrate_tablet, count_move, move_chosen, do_load_balance, choose_move, moved_table,
}
use le_kv.Migration.Tables.{DidMove, migrate_tablet-DidMove, migrate_tablet-IsTable}

module _ (env : Env) where
  count_move-table :
      (idx : ℕ) (before : env.World) (m m' : Master env) (u : Unit {0})
      → count_move env idx before m ≡ some (u, m')
      → m'.table ≡ m.table
  unfolding count_move
  count_move-table idx before m m' u e = ground arith

  -- The keys of one tablet may go elsewhere, to the destination.
  abbrev pub Rerouted : Option (ℕ × ℕ) → Bool → Table → Table → Type 0
  Rerouted none b t t' = (b ≡ false) × (t' ≡ t)
  Rerouted (some (idx, dst)) false t t' = t' ≡ t
  Rerouted (some (idx, dst)) true t t' =
      (moved : Tablet) × (get_elem? t.tablets idx ≡ some moved)
      × ((key : Bytes)
          → node_for key t' ≡ (if contains moved key then some dst else node_for key t))

  moved-IsTable :
      (idx dst : ℕ) (m m' : Master env) (b : Bool)
      → IsTable m.table
      → migrate_tablet env idx dst m ≡ some (b, m')
      → IsTable m'.table × Rerouted (some (idx, dst)) b m.table m'.table
  moved-IsTable idx dst m m' false v e =
      let same = migrate_tablet-DidMove env idx dst m m' false e in (rw same v, same)
  moved-IsTable idx dst m m' true v e = migrate_tablet-IsTable env idx dst m m' v e

  pure-ends : (a b : Bool) (m m' : Master env) → pure a m ≡ some (b, m') → (a ≡ b) × (m ≡ m')
  pure-ends a b m m' e = (ground arith, ground arith)

  relabel :
      (choice : Option (ℕ × ℕ)) (a b : Bool) (t t1 t' : Table)
      → a ≡ b
      → t' ≡ t1
      → IsTable t1 × Rerouted choice a t t1
      → IsTable t' × Rerouted choice b t t'
  relabel choice a b t t1 t' same kept r = rw (kept, ← same) r

  move_chosen-IsTable :
      (choice : Option (ℕ × ℕ)) (m m' : Master env) (b : Bool)
      → IsTable m.table
      → move_chosen env choice m ≡ some (b, m')
      → IsTable m'.table × Rerouted choice b m.table m'.table
  unfolding move_chosen
  move_chosen-IsTable none m m' b v e =
      let same : m' ≡ m = ground arith in (rw same v, (ground arith, ap (λ x. x.table) same))
  move_chosen-IsTable (some (idx, dst)) m m' b v e =
      let (good, m1, p, rest) = Exec.>>=-eq-some (migrate_tablet env idx dst) _ m m' b e in
      let (u, m2, q, last) =
        Exec.>>=-eq-some (count_move env idx m.world) (λ _. pure good) m1 m' b rest in
      let (same, end) = pure-ends good b m2 m' last in
      relabel (some (idx, dst)) good b m.table m1.table m'.table same
        (ap (λ x. x.table) (sym end) ∙ count_move-table idx m.world m1 m2 u q)
        (moved-IsTable idx dst m m1 good v p)

  DidMove-next :
      (idx dst : ℕ) (b : Bool) (t t' : Table)
      → DidMove env idx dst b t t'
      → t'.next_tablet_id ≡ t.next_tablet_id
  unfolding moved_table
  DidMove-next idx dst false t t' e = ap (λ x. x.next_tablet_id) e
  DidMove-next idx dst true t t' (moved, g, away, e) = ap (λ x. x.next_tablet_id) e

  move_chosen-next :
      (choice : Option (ℕ × ℕ)) (m m' : Master env) (b : Bool)
      → move_chosen env choice m ≡ some (b, m')
      → m'.table.next_tablet_id ≡ m.table.next_tablet_id
  unfolding move_chosen
  move_chosen-next none m m' b e = ground arith
  move_chosen-next (some (idx, dst)) m m' b e =
      let (good, m1, p, rest) = Exec.>>=-eq-some (migrate_tablet env idx dst) _ m m' b e in
      let (u, m2, q, last) =
        Exec.>>=-eq-some (count_move env idx m.world) (λ _. pure good) m1 m' b rest in
      let (same, end) = pure-ends good b m2 m' last in
      let counted = ap (λ x. x.table) (sym end) ∙ count_move-table idx m.world m1 m2 u q in
      ap (λ x. x.next_tablet_id) counted
      ∙ DidMove-next idx dst good m.table m1.table (migrate_tablet-DidMove env idx dst m m1 good p)

  -- A balancing step gives out no id.
  pub do_load_balance-next :
      (m m' : Master env) (b : Bool)
      → do_load_balance env m ≡ some (b, m')
      → m'.table.next_tablet_id ≡ m.table.next_tablet_id
  unfolding do_load_balance
  do_load_balance-next m m' b e = move_chosen-next (choose_move m.table.tablets) m m' b e

  -- DoLoadBalance, whatever it returns, keeps the routing table sound: the tablets still cut the key
  -- space, with distinct ids below the next id. Its table is as it was, or the keys of the tablet
  -- that it chose go to the node that it chose and every other key goes where it went before.
  pub do_load_balance-IsTable :
      (m m' : Master env) (b : Bool)
      → IsTable m.table
      → do_load_balance env m ≡ some (b, m')
      → IsTable m'.table × Rerouted (choose_move m.table.tablets) b m.table m'.table
  unfolding do_load_balance
  do_load_balance-IsTable m m' b v e = move_chosen-IsTable (choose_move m.table.tablets) m m' b v e
