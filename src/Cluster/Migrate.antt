-- ===== src/Cluster/Migrate.antt =====
-- MigrateTablet between two data nodes that are up, step by step.
use le_kv.Base.{
  ℕ, ◌<◌, Bool, true, false, Option, none, some, [], ◌==◌, ◌≡◌, ◌≢◌, refl, sym, ◌∙◌, arith, length,
  get_elem?, inl, inr, Bool-cases,
}
use le_kv.Bytes.{Bytes}
use le_kv.Exec.{pure, >>=-some, ◌>>=◌, ◌>>◌}
use le_kv.Protocol.{op_delete_range, st_ok}
use le_kv.Protocol.RoundTrip.{response_payload}
use le_kv.Storage
use le_kv.Storage.Api.{LevelDb}
use le_kv.Storage.Range.{entries_in}
use le_kv.Master.{Master, range_request, send_delete_range, save_tablets, is_ok}
use le_kv.Master.Interface.{Env}
use le_kv.Dispatch.{Node}
use le_kv.Routing.{Tablet}
use le_kv.Migration.{
  moved_table, commit_move, migrate_found, migrate_tablet, scan_and_transfer_data,
}
use le_kv.Cluster.Nodes.{Only, DataNodes, range_request-answer}
use le_kv.Cluster.Scan.{IsUp, ScanFits, data_node_delete_range, scan_and_transfer-put_all}
use le_kv.Cluster.Transfer.{PutsSucceed, put_all}

module _ (env : Env) (level : LevelDb) (nodes : DataNodes env level) where
  open nodes use {node}

  -- Saving a table that can be written as JSON is nothing to the nodes.
  record Saved (x x' : Master env) : Type 0 where
    table : x'.table ≡ x.table
    nodes_as_before : (j : ℕ) → node x'.world j ≡ node x.world j
    connected : (j : ℕ) → env.connected x'.world j ≡ env.connected x.world j

  save_tablets-Saved :
      (x : Master env) (text : Bytes)
      → env.dump x.table ≡ some text
      → (x' : Master env) × (save_tablets env x ≡ some (tt, x')) × Saved x x'
  unfolding save_tablets
  save_tablets-Saved x text d = elim (Bool-cases (env.can_open x.world)) [
    | inr shut ↦ (
      x,
      ground (arith, shut),
      record { table = refl; nodes_as_before = λ j. refl; connected = λ j. refl },
    )
    | inl opened ↦ (
      record x { world = env.replace_file x.world text },
      ground (arith, opened, d),
      record {
        table = refl;
        nodes_as_before = λ j. nodes.node-replace_file x.world text j;
        connected = λ j. nodes.connected-replace_file x.world text j;
      },
    )
  ]

  commit_move-Saved :
      (idx : ℕ) (t : Tablet) (dst : ℕ) (m : Master env) (text : Bytes)
      → env.dump (moved_table idx t dst m.table) ≡ some text
      → (m' : Master env) × (commit_move env idx t dst (some t) m ≡ some (tt, m'))
        × Saved (record m { table = moved_table idx t dst m.table }) m'
  unfolding commit_move
  commit_move-Saved idx t dst m text d =
      let (m', e, s) =
        save_tablets-Saved (record m { table = moved_table idx t dst m.table }) text d in
      let same : (t.id == t.id) ≡ true = ground arith in (m', rw same e, s)

  -- A DELETE_RANGE to a data node that is up.
  send_delete_range-Only :
      (m : Master env) (id : ℕ) (n : Node level) (d : level.Db) (start stop : Bytes)
      → IsUp env level node m.world id n d
      → length start < 65536
      → length stop < 65536
      → (w : env.World) × (send_delete_range env id start stop m
          ≡ some (true, record m { world = w }))
        × Only env level node id m.world w
            (record n { storage = some (Storage.delete_range level d start stop).1 })
  unfolding send_delete_range is_ok
  send_delete_range-Only m id n d start stop up hs he =
      let (w, e, o) =
        range_request-answer env level nodes m id op_delete_range start stop st_ok [] _ up.connected
          hs he (rw (up.stores) (data_node_delete_range level n d start stop hs he up.data_node))
          (omega arith) in
      (
        w,
        >>=-some (range_request env id op_delete_range start stop)
            (λ r. elim r [ none ↦ pure false | some p ↦ pure (is_ok p) ]) m (record m { world = w })
            (some (response_payload st_ok [])) e,
        o,
      )

  -- The nodes after a migration of a tablet.
  pub record Migrated (idx : ℕ) (t : Tablet) (dst : ℕ) (n_src n_dst : Node level)
      (d_src d_dst : level.Db) (m m' : Master env) : Type 0 where
    pub table : m'.table ≡ moved_table idx t dst m.table
    pub source :
        node m'.world t.node_id
        ≡ record n_src { storage = some (Storage.delete_range level d_src t.start_key t.end_key).1 }
    pub destination : node m'.world dst ≡ record n_dst {
      storage = some (put_all level d_dst (entries_in level d_src t.start_key t.end_key));
    }
    pub others : (j : ℕ) → j ≢ t.node_id → j ≢ dst → node m'.world j ≡ node m.world j

  module _ (puts : PutsSucceed level) (idx : ℕ) (t : Tablet) (dst : ℕ) (n_src n_dst : Node level)
      (d_src d_dst : level.Db) (m : Master env) (text : Bytes) where
    -- The end of MigrateTablet, once its calls have returned.
    end_runs :
        (found : Option Tablet) (m1 m2 m3 : Master env) (b : Bool)
        → found ≡ some t
        → commit_move env idx t dst (some t) m1 ≡ some (tt, m2)
        → send_delete_range env t.node_id t.start_key t.end_key m2 ≡ some (b, m3)
        → (do
          commit_move env idx t dst found
          deleted ← send_delete_range env t.node_id t.start_key t.end_key
          pure {A = Bool} true)
            m1
          ≡ some (true, m3)
    end_runs found m1 m2 m3 b there committed deleted = rw there (
        >>=-some (commit_move env idx t dst (some t)) _ m1 m2 tt committed
        ∙ >>=-some (send_delete_range env t.node_id t.start_key t.end_key) (λ _. pure true) m2 m3 b
            deleted)

    -- MigrateTablet of a tablet that is there, once its calls have returned.
    migrate_tablet_runs :
        (m1 m2 m3 : Master env) (b : Bool)
        → get_elem? m.table.tablets idx ≡ some t
        → t.node_id ≢ dst
        → m1.table ≡ m.table
        → scan_and_transfer_data env t.node_id dst t.start_key t.end_key m ≡ some (true, m1)
        → commit_move env idx t dst (some t) m1 ≡ some (tt, m2)
        → send_delete_range env t.node_id t.start_key t.end_key m2 ≡ some (b, m3)
        → migrate_tablet env idx dst m ≡ some (true, m3)
    unfolding migrate_tablet migrate_found
    migrate_tablet_runs m1 m2 m3 b there away same copied committed deleted =
        let apart : (t.node_id == dst) ≡ false = ground arith in
        let later : get_elem? m1.table.tablets idx ≡ some t = rw same there in
        rw (there, apart)
          (>>=-some (scan_and_transfer_data env t.node_id dst t.start_key t.end_key) _ m m1 true
              copied
            ∙ end_runs (get_elem? m1.table.tablets idx) m1 m2 m3 b later committed deleted)

    -- MigrateTablet returns true, with the entries of the tablet put on the destination and its
    -- range deleted from the source.
    pub migrate_tablet-Migrated :
        get_elem? m.table.tablets idx ≡ some t
        → t.node_id ≢ dst
        → IsUp env level node m.world t.node_id n_src d_src
        → IsUp env level node m.world dst n_dst d_dst
        → ScanFits t.start_key t.end_key (entries_in level d_src t.start_key t.end_key)
        → env.dump (moved_table idx t dst m.table) ≡ some text
        → (m' : Master env) × (migrate_tablet env idx dst m ≡ some (true, m'))
          × Migrated idx t dst n_src n_dst d_src d_dst m m'
    migrate_tablet-Migrated there away up_src up_dst fits written =
        let (w1, copied, only1) =
          scan_and_transfer-put_all env level nodes puts m t.node_id dst n_src n_dst d_src d_dst
            t.start_key t.end_key up_src up_dst fits in
        let m1 : Master env = record m { world = w1 } in
        let (m2, committed, saved) = commit_move-Saved idx t dst m1 text written in
        let up2 : IsUp env level node m2.world t.node_id n_src d_src = record {
          connected = saved.connected t.node_id ∙ only1.connected t.node_id ∙ up_src.connected;
          stores = saved.nodes_as_before t.node_id ∙ only1.elsewhere t.node_id away ∙ up_src.stores;
          data_node = up_src.data_node;
        } in
        let (w3, deleted, only3) =
          send_delete_range-Only m2 t.node_id n_src d_src t.start_key t.end_key up2 fits.start_fits
            fits.stop_fits in
        (
          record m2 { world = w3 },
          migrate_tablet_runs m1 m2 (record m2 { world = w3 }) true there away refl copied committed
              deleted,
          record {
            table = saved.table;
            source = only3.here_now;
            destination =
                only3.elsewhere dst (λ e. away (sym e))
                ∙ saved.nodes_as_before dst
                ∙ only1.here_now;
            others = λ j a b. only3.elsewhere j a ∙ saved.nodes_as_before j ∙ only1.elsewhere j b;
          },
        )
