-- ===== src/Server/Tests.antt =====
-- A client's connection to a data node, and each theorem about the server at it.
use le_kv.Base.{
  ℕ, zero, suc, List, ap, append-nil, ◌+◌, ◌≤◌, true, none, some, [], ◌∷◌, ◌++◌, ◌≡◌, refl, arith,
  length,
}
use le_kv.Bytes.{Bytes}
use le_kv.Protocol.{encode_request, encode_response, encode_custom_request, op_put, op_get, st_ok}
use le_kv.Storage
use le_kv.Storage.Sorted.{SortedDb, sorted_level}
use le_kv.Dispatch.{Node}
use le_kv.Bytes.Endian.{read32}
use le_kv.Protocol.{try_decode}
use le_kv.Rpc.Framing.{bytes_of}
use le_kv.Rpc.{recv_frame, recv_all, recv_rest, bytes, again, SendResult, taken}
use le_kv.Server.{send_response, Connection, Handler, respond, handle_client}
use le_kv.Server.Answers.{Answered, answer_all, handle_client-answer_all, frames_of}
use le_kv.Server.Ends.{handle_client_ends}
use le_kv.Server.KeyValue.{node_handler, put_get_stream}

-- A handler that counts its calls, and echoes the payload.
echo : Handler ℕ
echo n req_id payload = some (0 ∷ payload, n + 1)

abbrev ping : Bytes
ping = 0 ∷ 0 ∷ 0 ∷ 11 ∷ 0x4c ∷ 1 ∷ 0 ∷ 0 ∷ 0 ∷ 7 ∷ 9 ∷ []

abbrev pong : Bytes
pong = 0 ∷ 0 ∷ 0 ∷ 16 ∷ 0x4c ∷ 1 ∷ 0 ∷ 0 ∷ 0 ∷ 7 ∷ 0 ∷ 0 ∷ 0 ∷ 0 ∷ 1 ∷ 9 ∷ []

-- Enough sends of at most two bytes.
abbrev sends_for : ℕ → List SendResult
sends_for zero = []
sends_for (suc n) = taken 2 ∷ sends_for n

abbrev caller : Connection
caller = record {
  client = record {
    buf = 0 ∷ 0 ∷ [];
    socket = again ∷ bytes (0 ∷ 11 ∷ 0x4c ∷ 1 ∷ 0 ∷ 0 ∷ 0 ∷ 7 ∷ 9 ∷ []) ∷ [];
  };
  sends = sends_for 16;
  out = [];
}

caller_stream : bytes_of caller.client ≡ frames_of ((7, 9 ∷ []) ∷ []) ++ []
unfolding encode_custom_request
caller_stream = refl

echo_run : answer_all echo 0 ((7, 9 ∷ []) ∷ []) ≡ some (pong, 1)
unfolding answer_all echo respond encode_response
echo_run = refl

loop_run :
    handle_client echo 9 caller 0
    ≡ some
        (record { client = record { buf = []; socket = [] }; sends = sends_for 8; out = pong }, 1)
unfolding handle_client echo encode_response recv_frame recv_all recv_rest read32 try_decode
    send_response
loop_run = refl

handle_client-answer_all_example :
    (c : Connection) × (Answered echo caller pong [] c
      × (handle_client echo (1 + 4) caller 0 ≡ handle_client echo 4 c 1))
handle_client-answer_all_example =
    handle_client-answer_all echo 4 ((7, 9 ∷ []) ∷ []) caller 0 1 pong [] caller_stream
      ((omega arith, omega arith), tt) (omega arith) (omega arith) (omega arith) echo_run

handle_client_ends_example : handle_client echo (2 + 5) caller 0 ≡ handle_client echo 2 caller 0
handle_client_ends_example = handle_client_ends echo 2 5 caller 0 (omega arith)

abbrev empty_db : SortedDb
empty_db = ([], tt)

abbrev data_node : Node sorted_level
data_node = record {
  port = 9002;
  peers = [];
  table = record { tablets = []; next_tablet_id = 3; epoch = 1 };
  storage = none;
}

abbrev writer : Connection
writer = record {
  client = record {
    buf = encode_request 1 op_put (b'a' ∷ []) (b'b' ∷ []);
    socket = bytes (encode_request 2 op_get (b'a' ∷ []) []) ∷ [];
  };
  sends = sends_for 40;
  out = [];
}

writer_stream :
    bytes_of writer.client
    ≡ encode_request 1 op_put (b'a' ∷ []) (b'b' ∷ []) ++ encode_request 2 op_get (b'a' ∷ []) []
writer_stream =
    ap (◌++◌ (encode_request 1 op_put (b'a' ∷ []) (b'b' ∷ [])))
      (append-nil (encode_request 2 op_get (b'a' ∷ []) []))

answers_fit :
    length (encode_response 1 st_ok [] ++ encode_response 2 st_ok (b'b' ∷ [])) ≤ length writer.sends
unfolding encode_response
answers_fit = omega arith

put_good : (Storage.put sorted_level empty_db (b'a' ∷ []) (b'b' ∷ [])).0 ≡ true
unfolding Storage.put
put_good = refl

put_get_stream_example :
    (c : Connection) × (c.out ≡ encode_response 1 st_ok [] ++ encode_response 2 st_ok (b'b' ∷ []))
    × (handle_client
          (node_handler sorted_level)
          (2 + 1)
          writer
          (record data_node { storage = some empty_db })
        ≡ handle_client (node_handler sorted_level) 1 c (record data_node {
          storage = some (Storage.put sorted_level empty_db (b'a' ∷ []) (b'b' ∷ [])).1;
        }))
put_get_stream_example =
    put_get_stream sorted_level data_node empty_db (b'a' ∷ []) (b'b' ∷ []) 1 2 writer 1 refl
      (omega arith) (omega arith) (omega arith, omega arith) put_good writer_stream (omega arith)
      (omega arith) answers_fit
