-- ===== src/Cluster/Nodes.antt =====
-- The master's requests to data nodes that are up: each is a request that the node's server answers.
use le_kv.Base.{
  ℕ, ◌+◌, ◌<◌, true, false, some, [], ◌∷◌, ◌≡◌, ◌≢◌, refl, arith, length, length-append, append-nil,
}
use le_kv.Bytes.{Bytes}
use le_kv.Protocol.{encode_custom_request, encode_request, encode_response, op_put, st_ok}
use le_kv.Protocol.RoundTrip.{response_payload, request_payload, try_decode-encode_response}
use le_kv.Storage
use le_kv.Storage.Api.{LevelDb}
use le_kv.Master.{Master, range_payload, range_request, call}
use le_kv.Master.Interface.{Env}
use le_kv.Master.Replies.{length-range_payload}
use le_kv.Dispatch.{Node, is_master, handle_binary_request}
use le_kv.Server.{respond}
use le_kv.Server.KeyValue.{encode_request-custom, data_node_put}

-- What a change of one node leaves: the other nodes, and who is connected.
pub record Only (env : Env) (level : LevelDb) (node : env.World → ℕ → Node level) (id : ℕ)
    (w w' : env.World) (n' : Node level) : Type 0 where
  pub here_now : node w' id ≡ n'
  pub elsewhere : (j : ℕ) → j ≢ id → node w' j ≡ node w j
  pub connected : (j : ℕ) → env.connected w' j ≡ env.connected w j

-- Connections to data nodes that are up and answer in time: a request is handled by its node, as the
-- handler of its server does it, and the response comes back.
pub record DataNodes (env : Env) (level : LevelDb) : Type 1 where
  pub node : env.World → ℕ → Node level
  pub call-answer :
      (w : env.World) (id req_id : ℕ) (payload resp : Bytes) (n' : Node level)
      → env.connected w id ≡ true
      → req_id < 4294967296
      → 10 + length payload < 4294967296
      → handle_binary_request level (node w id) payload ≡ some (resp, n')
      → 15 + length resp < 4294967296
      → ((env.call w id (encode_custom_request req_id payload)).0 ≡ some (respond req_id resp))
        × Only env level node id w (env.call w id (encode_custom_request req_id payload)).1 n'
  -- Writing the file is nothing to the nodes.
  pub node-replace_file :
      (w : env.World) (text : Bytes) (j : ℕ) → node (env.replace_file w text) j ≡ node w j
  pub connected-replace_file :
      (w : env.World) (text : Bytes) (j : ℕ)
      → env.connected (env.replace_file w text) j ≡ env.connected w j

module _ (env : Env) (level : LevelDb) (nodes : DataNodes env level) where
  open nodes use {node}

  -- A range request, of a node that answers it with a status and a value.
  pub range_request-answer :
      (m : Master env) (id op : ℕ) (start stop : Bytes) (status : ℕ) (value : Bytes)
      (n' : Node level)
      → env.connected m.world id ≡ true
      → length start < 65536
      → length stop < 65536
      → handle_binary_request level (node m.world id) (range_payload op start stop)
        ≡ some (status ∷ value, n')
      → 16 + length value < 4294967296
      → (w : env.World) × (range_request env id op start stop m
          ≡ some (some (response_payload status value), record m { world = w }))
        × Only env level node id m.world w n'
  unfolding range_request respond
  range_request-answer m id op start stop status value n' up hs he handled fits =
      let size = length-range_payload op start stop hs he in
      let (answer, only) =
        nodes.call-answer (m.world) id 1 (range_payload op start stop) (status ∷ value) n' up
          (omega arith) (omega arith) handled (omega arith) in
      let d =
        rw (append-nil (encode_response 1 status value)) at
          (try_decode-encode_response 1 status value [] (omega arith) (omega arith)) in
      (
        (env.call (m.world) id (encode_custom_request 1 (range_payload op start stop))).1,
        ground (arith, up, answer, d),
        only,
      )

  -- The PUT of an entry, to a node that stores it.
  pub call-put :
      (m : Master env) (id req_id : ℕ) (n : Node level) (d : level.Db) (k v : Bytes)
      → env.connected m.world id ≡ true
      → req_id < 4294967296
      → node m.world id ≡ record n { storage = some d }
      → is_master level n ≡ false
      → length k < 65536
      → 17 + length k + length v < 4294967296
      → (level.put d k v).0 ≡ true
      → (w : env.World) × (call env id (encode_request req_id op_put k v) m
          ≡ some (some (respond req_id (st_ok ∷ [])), record m { world = w }))
        × Only env level node id m.world w (record n { storage = some (level.put d k v).1 })
  unfolding Storage.put
  call-put m id req_id n d k v up hr here m_no hk hv good =
      let handled = data_node_put level n d k v 0 0 m_no hk hv good in
      let frame = encode_request-custom req_id op_put k v hk hv in
      let (answer, only) =
        nodes.call-answer (m.world) id req_id (request_payload op_put k v) (st_ok ∷ [])
          (record n { storage = some (level.put d k v).1 }) up hr (omega (arith, length-append k v))
          (rw here handled) (omega arith) in
      (
        (env.call (m.world) id (encode_custom_request req_id (request_payload op_put k v))).1,
        rw (frame, answer) refl,
        only,
      )
