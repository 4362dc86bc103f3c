-- ===== src/Master/Persist.antt =====
-- The file of the routing table.
use le_kv.Base.{true, some, ◌≡◌, arith}
use le_kv.Bytes.{Bytes}
use le_kv.Routing.{Table}
use le_kv.Master.{Master, save_tablets, load_tablets}
use le_kv.Master.Interface.{Env}

module _ (env : Env) where
  -- LoadTablets takes the table that the text of the file holds.
  pub load_tablets-some :
      (m : Master env) (text : Bytes) (t : Table)
      → env.file m.world ≡ some text
      → env.parse text ≡ some t
      → load_tablets env m ≡ some (true, record m { table = t })
  unfolding load_tablets
  load_tablets-some m text t f p = ground (arith, f, p)

  -- What SaveTablets wrote, if the write and the rename succeeded, is loaded by a master on the same
  -- files.
  pub load-save_tablets :
      (m start : Master env) (text : Bytes)
      → env.can_open m.world ≡ true
      → env.dump m.table ≡ some text
      → env.file (env.replace_file m.world text) ≡ some text
      → (m' : Master env) × (save_tablets env m ≡ some (tt, m'))
        × (env.file m'.world ≡ some text)
        × (load_tablets env (record start { world = m'.world })
            ≡ some (true, record start { world = m'.world; table = m.table }))
  unfolding save_tablets
  load-save_tablets m start text can d written =
      let world : env.World = env.replace_file m.world text in
      (
        record m { world = world },
        ground (arith, can, d),
        written,
        load_tablets-some (record start { world = world }) text m.table written
            (env.parse-dump m.table text d),
      )
