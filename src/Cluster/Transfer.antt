-- ===== src/Cluster/Transfer.antt =====
-- ScanAndTransferData puts every entry of the scanned range on the destination.
use le_kv.Base.{
  ℕ, suc, ◌+◌, ◌<◌, true, false, some, List, [], ◌∷◌, ◌++◌, ◌≡◌, refl, ap, sym, ◌∙◌, arith, length,
  length-append, append_assoc, if◌then◌else◌,
}
use le_kv.Bytes.{Bytes}
use le_kv.Bytes.Endian.{be16, be32, u16, u32}
use le_kv.Exec.{>>=-some}
use le_kv.Protocol.{encode_request, op_put}
use le_kv.Storage.Api.{LevelDb, Entry}
use le_kv.Master.{Master, call}
use le_kv.Master.Interface.{Env}
use le_kv.Dispatch.{Node, is_master}
use le_kv.Migration.{next_entry, answered, send_entry, transfer_loop}
use le_kv.Cluster.Codec.{AllFit, entry_bytes, entries_bytes, around, next_entry-around}
use le_kv.Cluster.Nodes.{Only, DataNodes, call-put}

-- Every Put of the database succeeds.
abbrev pub PutsSucceed : LevelDb → Type 0
PutsSucceed level = (d : level.Db) (k v : Bytes) → (level.put d k v).0 ≡ true

-- A database after the entries were put, in order.
unfoldable pub put_all : (level : LevelDb) → level.Db → List Entry → level.Db
put_all level d [] = d
put_all level d ((k, v) ∷ es) = put_all level (level.put d k v).1 es

entry_bytes-around :
    (pre k v rest : Bytes) → pre ++ (entry_bytes (k, v) ++ rest) ≡ around pre rest k v
entry_bytes-around pre k v rest =
    ap (λ b. pre ++ (be16 (u16 (length k)) ++ b)) (append_assoc k (be32 (u32 (length v)) ++ v) rest)

length-entry_bytes :
    (pre k v : Bytes)
    → length (pre ++ entry_bytes (k, v)) ≡ length pre + 2 + length k + 4 + length v
length-entry_bytes pre k v =
    omega
      (arith, length-append pre (entry_bytes (k, v)), length-append k (be32 (u32 (length v)) ++ v))

module _ (env : Env) (level : LevelDb) where
  Only-trans :
      (node : env.World → ℕ → Node level) (id : ℕ) (w w1 w2 : env.World) (n1 n2 : Node level)
      → Only env level node id w w1 n1
      → Only env level node id w1 w2 n2
      → Only env level node id w w2 n2
  Only-trans node id w w1 w2 n1 n2 a b = record {
    here_now = b.here_now;
    elsewhere = λ j ne. b.elsewhere j ne ∙ a.elsewhere j ne;
    connected = λ j. b.connected j ∙ a.connected j;
  }

  -- A round that reads an entry and whose PUT is answered.
  transfer_step :
      (dst left i pos pos' sent : ℕ) (p k v r : Bytes) (m : Master env) (w : env.World)
      → next_entry p pos ≡ some (some (k, v, pos'))
      → call env dst (encode_request (u32 (1 + i + 1)) op_put k v) m
        ≡ some (some r, record m { world = w })
      → sent + 1 < 4294967296
      → transfer_loop env dst p (suc left) i pos sent m
        ≡ transfer_loop env dst p left (i + 1) pos' (sent + 1) (record m { world = w })
  unfolding transfer_loop send_entry
  transfer_step dst left i pos pos' sent p k v r m w e c h =
      let next = transfer_loop env dst p left (i + 1) in
      let count : u32 (sent + 1) ≡ sent + 1 = omega arith in
      let went =
        >>=-some (call env dst (encode_request (u32 (1 + i + 1)) op_put k v))
          (λ resp. next pos' (if answered resp then u32 (sent + 1) else sent)) m
          (record m { world = w }) (some r) c in
      rw e (went ∙ ap (λ (x : ℕ). next pos' x (record m { world = w })) count)

  nothing_left :
      (dst i pos sent : ℕ) (p : Bytes) (m : Master env)
      → transfer_loop env dst p 0 i pos sent m ≡ some (sent + 0, m)
  unfolding transfer_loop
  nothing_left dst i pos sent p m = ap (λ n. some (n, m)) (omega arith)

  module _ (nodes : DataNodes env level) (puts : PutsSucceed level) (dst : ℕ) (n : Node level) where
    open nodes use {node}

    -- The loop, from an entry on: each entry is put, and counted.
    pub transfer_loop-put_all :
        (es : List Entry) (m : Master env) (p pre : Bytes) (i sent : ℕ) (d : level.Db)
        → p ≡ pre ++ entries_bytes es
        → env.connected m.world dst ≡ true
        → node m.world dst ≡ record n { storage = some d }
        → is_master level n ≡ false
        → AllFit es
        → sent + length es < 4294967296
        → (w : env.World) × (transfer_loop env dst p (length es) i (length pre) sent m
            ≡ some (sent + length es, record m { world = w }))
          × Only env level node dst m.world w (record n { storage = some (put_all level d es) })
    unfolding put_all
    transfer_loop-put_all [] m p pre i sent d whole up here m_no fits h = (
      m.world,
      nothing_left dst i (length pre) sent p m,
      record { here_now = here; elsewhere = λ j ne. refl; connected = λ j. refl },
    )
    transfer_loop-put_all ((k, v) ∷ es) m p pre i sent d whole up here m_no (fit, fits) h =
        let (w1, put, only) =
          call-put env level nodes m dst (u32 (1 + i + 1)) n d k v up (omega arith) here m_no fit.0
            fit.1 (puts d k v) in
        let m1 : Master env = record m { world = w1 } in
        let at = entry_bytes-around pre k v (entries_bytes es) in
        let entry : next_entry p (length pre)
            ≡ some (some (k, v, length pre + 2 + length k + 4 + length v)) =
          rw (whole, at) (next_entry-around pre (entries_bytes es) k v fit.0 (omega arith)) in
        let size = length-entry_bytes pre k v in
        let total : sent + 1 + length es ≡ sent + suc (length es) = omega arith in
        let (w, later, after) =
          transfer_loop-put_all es m1 p (pre ++ entry_bytes (k, v)) (i + 1) (sent + 1)
            (level.put d k v).1
            (whole ∙ sym (append_assoc pre (entry_bytes (k, v)) (entries_bytes es)))
            (only.connected dst ∙ up) (only.here_now) m_no fits (omega arith) in
        let step =
          transfer_step dst (length es) i (length pre) _ sent p k v _ m w1 entry put
            (omega arith) in
        (
          w,
          step ∙ rw size at later ∙ ap (λ c. some (c, record m { world = w })) total,
          Only-trans node dst (m.world) w1 w _ _ only after,
        )
