-- ===== src/Cli/Exchange.antt =====
-- A request of the client and its response, over one connection.
use le_kv.Base.{
  ℕ, ◌+◌, ◌<◌, true, some, [], ◌∷◌, ◌++◌, ◌≡◌, refl, ap, sym, ◌∙◌, arith, length, append-nil,
}
use le_kv.Bytes.{Bytes, is_empty}
use le_kv.Bytes.Endian.{read32}
use le_kv.Protocol.{encode_response, decoded, try_decode}
use le_kv.Protocol.RoundTrip.{response_payload, try_decode-encode_response}
use le_kv.Rpc.{Client, send_loop, recv_frame}
use le_kv.Rpc.Framing.{bytes_of, waiting, IsFramed, recv_frame-frame}
use le_kv.Rpc.Sending.{send_loop_prefix}
use le_kv.Cli.{Socket, RpcClient, send_and_recv}

-- The bytes of a connection: in its buffer, and to come.
abbrev pub input_of : RpcClient → Socket → Bytes
input_of c s = bytes_of (record { buf = c.buf; socket = s.received })

-- The client's socket takes a request, and a response is the next thing on it, in any pieces, with
-- less waiting than RecvAll's timeout.
pub record Carries (c : RpcClient) (s : Socket) (req : Bytes) (req_id status : ℕ)
    (value rest : Bytes) : Type 0 where
  pub open_socket : c.fd ≡ some s
  pub takes : (send_loop s.sends req).0 ≡ true
  pub input : input_of c s ≡ encode_response req_id status value ++ rest
  pub in_time : waiting s.received < 5000
  pub id_fits : req_id < 4294967296
  pub fits : 15 + length value < 4294967296

-- After an exchange: the request was sent, and what followed the response is still to come.
pub record Exchanged (c : RpcClient) (s : Socket) (req rest : Bytes) : Type 0 where
  pub s' : Socket
  pub open_socket : c.fd ≡ some s'
  pub sent : s'.out ≡ s.out ++ req
  pub left : input_of c s' ≡ rest

-- A response is a frame with the length that its header says.
pub encode_response-IsFramed :
    (req_id status : ℕ) (value : Bytes)
    → 15 + length value < 4294967296
    → IsFramed (encode_response req_id status value)
unfolding encode_response read32
encode_response-IsFramed req_id status value h = (omega arith, ap some (omega arith))

sent_whole :
    (s : Socket) (req : Bytes) → (send_loop s.sends req).0 ≡ true → (send_loop s.sends req).1 ≡ req
sent_whole s req good =
    let (left, whole, all) = send_loop_prefix s.sends req in go left whole (sym all ∙ good)
  where
    go :
        (left : Bytes)
        → (send_loop s.sends req).1 ++ left ≡ req
        → is_empty left ≡ true
        → (send_loop s.sends req).1 ≡ req
    go [] whole e = sym (append-nil (send_loop s.sends req).1) ∙ whole
    go (b ∷ left) whole e = cc

-- The socket after a request was sent.
abbrev after_send : Socket → Bytes → Socket
after_send s req = record s {
  sends = (send_loop s.sends req).2;
  out = s.out ++ (send_loop s.sends req).1;
}

send_and_recv_open :
    (buf : Bytes) (s : Socket) (req frame : Bytes) (cl : Client) (n req_id : ℕ) (payload : Bytes)
    → (send_loop s.sends req).0 ≡ true
    → recv_frame 5000 (record { buf = buf; socket = s.received }) ≡ some (some frame, cl)
    → try_decode frame ≡ some (decoded n req_id payload)
    → send_and_recv (record { buf = buf; fd = some s }) req
      ≡ some (
        some (req_id, payload),
        record { buf = cl.buf; fd = some (record (after_send s req) { received = cl.socket }) },
      )
unfolding send_and_recv
send_and_recv_open buf s req frame cl n req_id payload good e d =
    rw (good, send_and_recv) (ground (arith, e, d))

-- SendAndRecv returns the id and the payload of the response.
pub send_and_recv-Carries :
    (c : RpcClient) (s : Socket) (req : Bytes) (req_id status : ℕ) (value rest : Bytes)
    → Carries c s req req_id status value rest
    → (c' : RpcClient) × (send_and_recv c req
        ≡ some (some (req_id, response_payload status value), c'))
      × Exchanged c' s req rest
send_and_recv-Carries c s req req_id status value rest k =
    let opened = k.open_socket in
    let (cl, e, left, wait) =
      recv_frame-frame 5000 (record { buf = c.buf; socket = s.received })
        (encode_response req_id status value) rest (k.input)
        (encode_response-IsFramed req_id status value (k.fits)) (k.in_time) in
    let d =
      rw (append-nil (encode_response req_id status value)) at
        (try_decode-encode_response req_id status value [] (k.id_fits) (k.fits)) in
    (
      record { buf = cl.buf; fd = some (record (after_send s req) { received = cl.socket }) },
      rw opened (send_and_recv_open (c.buf) s req _ cl _ req_id _ (k.takes) e d),
      record {
        s' = record (after_send s req) { received = cl.socket };
        open_socket = refl;
        sent = ap (◌++◌ (s.out)) (sent_whole s req (k.takes));
        left = left;
      },
    )
