-- ===== src/Server/KeyValue.antt =====
-- A client's PUT and GET over one connection to a data node: encoders, stream, server, dispatch,
-- handlers and storage together.
use le_kv.Base.{
  ℕ, ◌+◌, ◌<◌, ◌≤◌, true, false, some, List, [], ◌∷◌, ◌++◌, ◌≡◌, ◌∙◌, arith, length, length-append,
  append-nil,
}
use le_kv.Bytes.{Bytes}
use le_kv.Bytes.Endian.{u16, u32}
use le_kv.Protocol.{encode_request, encode_response, encode_custom_request, op_put, op_get, st_ok}
use le_kv.Protocol.RoundTrip.{request_payload}
use le_kv.Storage
use le_kv.Storage.Api.{LevelDb}
use le_kv.DataNode.{store_put, handle_put, handle_get}
use le_kv.DataNode.KeyValue.{handle_put_request, get-put_request}
use le_kv.Dispatch.{Node, is_master, handle_binary_request, data_node_request}
use le_kv.Rpc.Framing.{bytes_of, waiting}
use le_kv.Server.{Connection, Handler, respond, handle_client}
use le_kv.Server.Sending.{AllTaken}
use le_kv.Server.Answers.{Request, answer_all, handle_client-answer_all}

-- The frames of EncodeRequest are those of EncodeCustomRequest.
pub encode_request-custom :
    (req_id op : ℕ) (k v : Bytes)
    → length k < 65536
    → 17 + length k + length v < 4294967296
    → encode_request req_id op k v ≡ encode_custom_request req_id (request_payload op k v)
unfolding encode_request encode_custom_request
encode_request-custom req_id op k v hk hv =
    let a : u16 (length k) ≡ length k = omega arith in
    let b : u32 (length v) ≡ length v = omega arith in
    let e : u32 (1 + 2 + 4 + length k + length v) ≡ u32 (length (request_payload op k v)) =
      omega (arith, length-append k v) in
    rw (a, b, e)

module _ (level : LevelDb) where
  -- The handler that Run installs.
  unfoldable pub node_handler : Handler (Node level)
  node_handler n req_id payload = handle_binary_request level n payload

  module _ (n : Node level) (d : level.Db) (k v : Bytes) (i j : ℕ) where
    abbrev with_db : level.Db → Node level
    with_db x = record n { storage = some x }

    pub data_node_put :
        is_master level n ≡ false
        → length k < 65536
        → 17 + length k + length v < 4294967296
        → (Storage.put level d k v).0 ≡ true
        → handle_binary_request level (with_db d) (request_payload op_put k v)
          ≡ some (st_ok ∷ [], with_db (Storage.put level d k v).1)
    unfolding handle_binary_request data_node_request store_put
    data_node_put m hk hv good =
        ground (arith, handle_put_request level (some d) k v op_put hk (omega arith))

    put_stored :
        length k < 65536
        → 17 + length k + length v < 4294967296
        → (Storage.put level d k v).0 ≡ true
        → handle_put level (some d) (request_payload op_put k v)
          ≡ some (st_ok ∷ [], some (Storage.put level d k v).1)
    unfolding store_put
    put_stored hk hv good =
        ground (arith, handle_put_request level (some d) k v op_put hk (omega arith))

    data_node_get :
        (x : level.Db)
        → is_master level n ≡ false
        → handle_get level (some x) (request_payload op_get k []) ≡ some (st_ok ∷ v, some x)
        → handle_binary_request level (with_db x) (request_payload op_get k [])
          ≡ some (st_ok ∷ v, with_db x)
    unfolding handle_binary_request data_node_request
    data_node_get x m e = ground (arith, e)

    abbrev put_get : List Request
    put_get = (i, request_payload op_put k v) ∷ (j, request_payload op_get k []) ∷ []

    answer_all-put_get :
        is_master level n ≡ false
        → length k < 65536
        → 17 + length k + length v < 4294967296
        → (Storage.put level d k v).0 ≡ true
        → answer_all node_handler (with_db d) put_get
          ≡ some (
            encode_response i st_ok [] ++ encode_response j st_ok v,
            with_db (Storage.put level d k v).1,
          )
    unfolding answer_all node_handler respond
    answer_all-put_get m hk hv good =
        let p = data_node_put m hk hv good in
        let g =
          data_node_get (Storage.put level d k v).1 m
            (get-put_request level d k hk v (Storage.put level d k v).1 (omega arith)
              (put_stored hk hv good)).0 in
        let whole = append-nil (encode_response j st_ok v) in rw (p, g, whole)

    -- A client that sends a PUT and then a GET of the same key, with ids of 32 bits, to a data node
    -- whose database is open, over one connection and in any pieces, is answered OK and then OK with
    -- the value, and the data node has stored it: if LevelDB's Put succeeds, the key is shorter than
    -- 2^16 bytes, the PUT's frame fits 32 bits, the waiting that RecvAll counts stays below the
    -- timeout, and the socket takes the answers. The code tests no other bound of a key or a value,
    -- and takes an empty one of each.
    pub put_get_stream :
        (c : Connection) (more : ℕ)
        → is_master level n ≡ false
        → length k < 65536
        → 17 + length k + length v < 4294967296
        → (i < 4294967296) × (j < 4294967296)
        → (Storage.put level d k v).0 ≡ true
        → bytes_of c.client ≡ encode_request i op_put k v ++ encode_request j op_get k []
        → waiting c.client.socket < 5000
        → AllTaken c.sends
        → length (encode_response i st_ok [] ++ encode_response j st_ok v) ≤ length c.sends
        → (c' : Connection) × (c'.out
            ≡ c.out ++ (encode_response i st_ok [] ++ encode_response j st_ok v))
          × (handle_client node_handler (2 + more) c (with_db d)
              ≡ handle_client node_handler more c' (with_db (Storage.put level d k v).1))
    put_get_stream c more m hk hv (hi, hj) good stream w a s =
        let frames = encode_request-custom i op_put k v hk hv in
        let frames' = encode_request-custom j op_get k [] hk (omega arith) in
        let (c', (done, run)) =
          handle_client-answer_all node_handler more put_get c (with_db d)
            (with_db (Storage.put level d k v).1)
            (encode_response i st_ok [] ++ encode_response j st_ok v) []
            (stream
              ∙ (rw (
                frames,
                frames',
                append-nil (encode_custom_request j (request_payload op_get k [])),
                append-nil (
                    encode_custom_request i (request_payload op_put k v)
                    ++ encode_custom_request j (request_payload op_get k [])),
              )))
            ((hi, omega (arith, length-append k v)), ((hj, omega (arith, length-append k [])), tt))
            w a s (answer_all-put_get m hk hv good) in
        (c', done.out, run)
