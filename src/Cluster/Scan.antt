-- ===== src/Cluster/Scan.antt =====
-- ScanAndTransferData from one data node to another: scan, parse, and put.
use le_kv.Base.{
  ℕ, ◌+◌, ◌<◌, ◌≤◌, true, false, Bool, some, List, [], ◌∷◌, ◌++◌, ◌==◌, ◌≡◌, refl, ap, sym, ◌∙◌,
  arith, length, length-append, inl, inr, Bool-cases,
}
use le_kv.Bytes.{Bytes}
use le_kv.Bytes.Endian.{be32, u32, read32_past}
use le_kv.Exec.{pure, >>=-some}
use le_kv.Protocol.{op_scan_range, op_delete_range, st_ok}
use le_kv.Protocol.RoundTrip.{response_payload}
use le_kv.Storage
use le_kv.Storage.Api.{LevelDb, Entry}
use le_kv.Storage.Range.{entries_in}
use le_kv.DataNode.{scan_body, handle_scan_range, handle_delete_range}
use le_kv.Master.{Master, range_payload, range_request, is_ok}
use le_kv.Master.Interface.{Env}
use le_kv.Master.Replies.{range_bounds-range_payload}
use le_kv.Dispatch.{Node, is_master, handle_binary_request, data_node_request}
use le_kv.Migration.{
  scan_count, transfer_loop, transfer_entries, transfer_payload, scan_and_transfer_data,
}
use le_kv.Cluster.Codec.{AllFit, entries_bytes, scan_body-entries}
use le_kv.Cluster.Nodes.{Only, DataNodes, range_request-answer}
use le_kv.Cluster.Transfer.{PutsSucceed, put_all, transfer_loop-put_all}

length-entries_bytes : (es : List Entry) → length es ≤ length (entries_bytes es)
length-entries_bytes [] = omega arith
length-entries_bytes ((k, v) ∷ es) =
    let more = length-entries_bytes es in
    omega (arith, length-append (k ++ (be32 (u32 (length v)) ++ v)) (entries_bytes es))

-- The payload of a scan's response, up to its entries.
abbrev pub scan_header : List Entry → Bytes
scan_header es = st_ok ∷ (be32 (4 + length (entries_bytes es)) ++ be32 (length es))

-- The payload of a scan's response.
abbrev pub scan_payload : List Entry → Bytes
scan_payload es = scan_header es ++ entries_bytes es

-- The tests of ScanAndTransferData on a payload pass: [OK][4B length][4B count][entries].
scan_count_framed :
    (b : Bytes) (c : ℕ)
    → 20 + length b < 4294967296
    → c < 4294967296
    → scan_count (st_ok ∷ (be32 (4 + length b) ++ (be32 c ++ b))) ≡ some (some c)
unfolding scan_count is_ok
scan_count_framed b c h hc =
    let size = read32_past 1 (4 + length b) (st_ok ∷ []) (be32 c ++ b) refl (omega arith) in
    let count = read32_past 5 c (st_ok ∷ be32 (4 + length b)) b refl hc in
    ground (arith, size, count)

scan_count-scan_payload :
    (es : List Entry)
    → 20 + length (entries_bytes es) < 4294967296
    → scan_count (scan_payload es) ≡ some (some (length es))
scan_count-scan_payload es h =
    let few = length-entries_bytes es in
    scan_count_framed (entries_bytes es) (length es) h (omega arith)

module _ (level : LevelDb) (n : Node level) (d : level.Db) (start stop : Bytes)
    (hs : length start < 65536) (he : length stop < 65536) (m_no : is_master level n ≡ false) where
  data_node_scan :
      handle_binary_request level
        (record n { storage = some d })
        (range_payload op_scan_range start stop)
      ≡ some (st_ok ∷ scan_body level d start stop, record n { storage = some d })
  unfolding handle_binary_request data_node_request handle_scan_range range_payload
  data_node_scan = ground (arith, m_no, range_bounds-range_payload op_scan_range start stop hs he)

  pub data_node_delete_range :
      handle_binary_request level
        (record n { storage = some d })
        (range_payload op_delete_range start stop)
      ≡ some (st_ok ∷ [], record n { storage = some (Storage.delete_range level d start stop).1 })
  unfolding handle_binary_request data_node_request handle_delete_range range_payload
      Storage.delete_range
  data_node_delete_range =
      ground (arith, m_no, range_bounds-range_payload op_delete_range start stop hs he)

-- A data node that is connected, with its database.
pub record IsUp (env : Env) (level : LevelDb) (node : env.World → ℕ → Node level) (w : env.World)
    (id : ℕ) (n : Node level) (d : level.Db) : Type 0 where
  pub connected : env.connected w id ≡ true
  pub stores : node w id ≡ record n { storage = some d }
  pub data_node : is_master level n ≡ false

-- What a scan's response needs to fit its fields and its frame.
pub record ScanFits (start stop : Bytes) (es : List Entry) : Type 0 where
  pub start_fits : length start < 65536
  pub stop_fits : length stop < 65536
  pub entries_fit : AllFit es
  pub frame_fits : 20 + length (entries_bytes es) < 4294967296

module _ (env : Env) (level : LevelDb) where
  -- A node that is as it was, after a request to it.
  pub Only-same :
      (node : env.World → ℕ → Node level) (id : ℕ) (w w1 : env.World) (n : Node level)
      → Only env level node id w w1 n
      → node w id ≡ n
      → (j : ℕ) → node w1 j ≡ node w j
  Only-same node id w w1 n o s j = elim (Bool-cases (j == id)) [
    | inl e ↦
        let same : j ≡ id = ground arith in
        ap (node w1) same ∙ o.here_now ∙ sym s ∙ sym (ap (node w) same)
    | inr ne ↦ o.elsewhere j (ground arith)
  ]

  transfer_payload-all :
      (dst c c' : ℕ) (p : Bytes) (m m' : Master env)
      → scan_count p ≡ some (some c)
      → transfer_loop env dst p c 0 9 0 m ≡ some (c', m')
      → c' ≡ c
      → transfer_payload env dst (some p) m ≡ some (true, m')
  unfolding transfer_payload transfer_entries
  transfer_payload-all dst c c' p m m' counted run all =
      let yes : (c' == c) ≡ true = ground arith in
      rw counted (
        >>=-some (transfer_loop env dst p c 0 9 0) (λ t. pure (t == c)) m m' c' run
        ∙ ap (λ (b : Bool). some (b, m')) yes)

  scan_and_transfer_up :
      (src dst : ℕ) (start stop p : Bytes) (m m1 m' : Master env)
      → env.connected m.world src ≡ true
      → env.connected m.world dst ≡ true
      → range_request env src op_scan_range start stop m ≡ some (some p, m1)
      → transfer_payload env dst (some p) m1 ≡ some (true, m')
      → scan_and_transfer_data env src dst start stop m ≡ some (true, m')
  unfolding scan_and_transfer_data
  scan_and_transfer_up src dst start stop p m m1 m' a b q r =
      rw (a, b)
        (>>=-some (range_request env src op_scan_range start stop) (transfer_payload env dst) m m1
            (some p) q
          ∙ r)

  module _ (nodes : DataNodes env level) (puts : PutsSucceed level) where
    open nodes use {node}

    -- The entries of the range on the source are put on the destination, and nothing else changes.
    pub scan_and_transfer-put_all :
        (m : Master env) (src dst : ℕ) (n_src n_dst : Node level) (d_src d_dst : level.Db)
        (start stop : Bytes)
        → IsUp env level node m.world src n_src d_src
        → IsUp env level node m.world dst n_dst d_dst
        → ScanFits start stop (entries_in level d_src start stop)
        → (w : env.World) × (scan_and_transfer_data env src dst start stop m
            ≡ some (true, record m { world = w }))
          × Only env level node dst m.world w (record n_dst {
            storage = some (put_all level d_dst (entries_in level d_src start stop));
          })
    scan_and_transfer-put_all m src dst n_src n_dst d_src d_dst start stop s t f =
        let es = entries_in level d_src start stop in
        let fit = f.frame_fits in
        let few = length-entries_bytes es in
        let body = scan_body-entries level d_src start stop (omega arith) in
        let size : length (scan_body level d_src start stop) ≡ 4 + length (entries_bytes es) =
          ap length body ∙ omega arith in
        let payload : response_payload st_ok (scan_body level d_src start stop) ≡ scan_payload es =
          rw (size, body) refl in
        let (w1, scanned, only) =
          range_request-answer env level nodes m src op_scan_range start stop st_ok
            (scan_body level d_src start stop) (record n_src { storage = some d_src }) s.connected
            f.start_fits f.stop_fits
            (rw (s.stores)
              (data_node_scan level n_src d_src start stop f.start_fits f.stop_fits s.data_node))
            (omega arith) in
        let same = Only-same node src (m.world) w1 _ only s.stores in
        let m1 : Master env = record m { world = w1 } in
        let (w2, put, after) =
          transfer_loop-put_all env level nodes puts dst n_dst es m1 (scan_payload es)
            (scan_header es) 0 0 d_dst refl (only.connected dst ∙ t.connected) (same dst ∙ t.stores)
            t.data_node f.entries_fit (omega arith) in
        let done =
          transfer_payload-all dst (length es) (0 + length es) (scan_payload es) m1
            (record m { world = w2 }) (scan_count-scan_payload es fit) put (omega arith) in
        (
          w2,
          scan_and_transfer_up src dst start stop (scan_payload es) m m1 (record m { world = w2 })
              s.connected t.connected (rw payload at scanned) done,
          record {
            here_now = after.here_now;
            elsewhere = λ j ne. after.elsewhere j ne ∙ same j;
            connected = λ j. after.connected j ∙ only.connected j;
          },
        )
