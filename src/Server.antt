-- ===== src/Server.antt =====
-- rpc/rpc_server.cpp: BinaryRpcServer::HandleClient, the loop that answers one client. Its RecvAll
-- and the lines that cut a frame off the buffer are those of rpc/rpc_client.cpp, on its own buffer.
pub mod Sending
pub mod Answers
pub mod Ends
pub mod KeyValue
mod Tests
use le_kv.Base.{
  ℕ, zero, suc, Bool, true, false, Option, none, some, List, [], ◌∷◌, ◌++◌, ◌==◌, if◌then◌else◌,
  take, drop,
}
use le_kv.Base
use le_kv.Bytes.{Bytes}
use le_kv.Protocol.{Decoded, rejected, decoded, try_decode, encode_response, st_bad_request}
use le_kv.Rpc.{Client, recv_frame, SendResult, taken, busy, refused}

-- One client's connection: what arrives, what its socket answers to `send`, and what was sent.
pub record Connection : Type 0 where
  pub client : Client
  pub sends : List SendResult
  pub out : Bytes

-- The loop that sends a response: whether all was sent, what was, and what `send` returns next.
unfoldable pub send_response : List SendResult → Bytes → Bool × Bytes × List SendResult
send_response sends [] = (true, [], sends)
send_response [] (b ∷ left) = (false, [], [])
send_response (busy ∷ sends) (b ∷ left) = (false, [], sends)
send_response (refused ∷ sends) (b ∷ left) = (false, [], sends)
send_response (taken n ∷ sends) (b ∷ left) = elim (n == 0) [
  | true ↦ (false, [], sends)
  | false ↦
      let (good, sent, sends') = send_response sends (drop n (b ∷ left)) in
      (good, take n (b ∷ left) ++ sent, sends')
]

-- The frame of a handler's result; an empty one is answered as a bad request.
unfoldable pub respond : ℕ → Bytes → Bytes
respond req_id [] = encode_response req_id st_bad_request []
respond req_id (status ∷ value) = encode_response req_id status value

abbrev receive_timeout : ℕ
receive_timeout = 5000

-- `binary_handler_` changes a state; `none` is undefined behaviour.
abbrev pub Handler : Type 0 → Type 0
Handler S = S → ℕ → Bytes → Option (Bytes × S)

module _ {S : Type 0} (binary_handler : Handler S) where
  abbrev pub Serving : Type 0
  Serving = Connection → S → Option (Connection × S)

  -- A round after the handler's result: it is sent, and the next round follows if that went well.
  unfoldable pub send_round : Serving → ℕ → Bytes → Serving
  unfolding send_response respond
  send_round next req_id resp c s =
      let (good, sent, sends) = send_response c.sends (respond req_id resp) in
      let c' : Connection = record c { sends = sends; out = c.out ++ sent } in
      elim good [ true ↦ next c' s | false ↦ some (c', s) ]

  -- A round after a frame was received.
  unfoldable pub decode_round : Serving → Decoded → Serving
  unfolding send_round
  decode_round next (rejected n) c s = next c s
  decode_round next (decoded n req_id payload) c s =
      Base.◌>>=◌ (binary_handler s req_id payload) λ r. send_round next req_id r.0 c r.1

  unfoldable pub frame_round : Serving → Option Bytes → Serving
  unfolding decode_round
  frame_round next none c s = some (c, s)
  frame_round next (some frame) c s = Base.◌>>=◌ (try_decode frame) λ d. decode_round next d c s

  -- HandleClient, while `running_` is true for so many rounds.
  unfoldable pub handle_client : ℕ → Serving
  unfolding frame_round
  handle_client zero c s = some (c, s)
  handle_client (suc rounds) c s =
      Base.◌>>=◌ (recv_frame receive_timeout c.client)
        λ r. frame_round (handle_client rounds) r.0 (record c { client = r.1 }) s
