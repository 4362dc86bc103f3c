-- ===== src/Server/Ends.antt =====
-- The loop of HandleClient ends: every round takes at least ten bytes off the stream.
use le_kv.Base.{
  ℕ, zero, suc, ◌+◌, ◌*◌, ◌<◌, ◌≤◌, Bool, true, false, Option, none, some, List, [], ◌∷◌, ◌++◌, ◌≡◌,
  refl, ap, sym, ◌∙◌, arith, Option-cases, inl, inr, length, length-append, Bool-cases,
}
use le_kv.Base
use le_kv.Bytes.{Bytes}
use le_kv.Protocol.{Decoded, decoded, rejected, try_decode}
use le_kv.Rpc.{Client, recv_frame}
use le_kv.Rpc.Framing.{bytes_of}
use le_kv.Rpc.Safety.{Framed, recv_frame-Framed}
use le_kv.Server.{
  Connection, Handler, Serving, respond, send_response, send_round, decode_round, frame_round,
  handle_client,
}

module _ {S : Type 0} (handler : Handler S) where
  -- Two ways to go on that agree on a client.
  abbrev SameOn : Client → Serving handler → Serving handler → Type 0
  SameOn cl f g = (c : Connection) (s : S) → c.client ≡ cl → f c s ≡ g c s

  module _ (f g : Serving handler) where
    send_round-same :
        (req_id : ℕ) (resp : Bytes) (c : Connection) (s : S)
        → SameOn c.client f g
        → send_round handler f req_id resp c s ≡ send_round handler g req_id resp c s
    unfolding send_round
    send_round-same req_id resp c s e =
        elim (Bool-cases (send_response c.sends (respond req_id resp)).0) [
          | inl good ↦ rw (good, send_round) (e _ s refl)
          | inr bad ↦ rw (bad, send_round)
        ]

    decode_round-same :
        (d : Decoded) (c : Connection) (s : S)
        → SameOn c.client f g
        → decode_round handler f d c s ≡ decode_round handler g d c s
    unfolding decode_round
    decode_round-same (rejected n) c s e = e c s refl
    decode_round-same (decoded n req_id payload) c s e =
        elim (Option-cases (handler s req_id payload)) [
          | inl fails ↦ rw fails
          | inr (r, h) ↦ rw h (send_round-same req_id r.0 c r.1 e)
        ]

    frame_round-same :
        (frame : Bytes) (c : Connection) (s : S)
        → SameOn c.client f g
        → frame_round handler f (some frame) c s ≡ frame_round handler g (some frame) c s
    unfolding frame_round
    frame_round-same frame c s e = elim (Option-cases (try_decode frame)) [
      | inl fails ↦ rw fails
      | inr (d, h) ↦ rw h (decode_round-same d c s e)
    ]

  received :
      (rounds k : ℕ) (c : Connection) (s : S) (r : Option (Option Bytes × Client))
      → Framed c.client r
      → length (bytes_of c.client) < 10 * suc rounds
      → ((c' : Connection) (s' : S)
          → length (bytes_of c'.client) < 10 * rounds
          → handle_client handler (rounds + k) c' s' ≡ handle_client handler rounds c' s')
      → (Base.◌>>=◌ r λ x.
          frame_round handler
            (handle_client handler (rounds + k))
            x.0
            (record c { client = x.1 })
            s)
        ≡ (Base.◌>>=◌ r λ x.
            frame_round handler (handle_client handler rounds) x.0 (record c { client = x.1 }) s)
  unfolding frame_round
  received rounds k c s none f h ih = refl
  received rounds k c s (some (none, cl)) f h ih = refl
  received rounds k c s (some (some frame, cl)) ((long, header), whole) h ih =
      let sizes : length frame + length (bytes_of cl) ≡ length (bytes_of c.client) =
        sym (length-append frame (bytes_of cl)) ∙ ap length whole in
      frame_round-same (handle_client handler (rounds + k)) (handle_client handler rounds) frame _ s
        λ c' s' same. ih c' s' (rw same (omega arith))

  -- With more rounds than a tenth of the bytes that there are, in the buffer and to come, the loop of
  -- HandleClient ends by itself: further rounds change nothing. So it ends on every stream, whatever
  -- the handler answers and whatever the socket takes.
  pub handle_client_ends :
      (rounds k : ℕ) (c : Connection) (s : S)
      → length (bytes_of c.client) < 10 * rounds
      → handle_client handler (rounds + k) c s ≡ handle_client handler rounds c s
  unfolding handle_client
  handle_client_ends zero k c s h = absurd (omega arith)
  handle_client_ends (suc rounds) k c s h =
      let shape : suc rounds + k ≡ suc (rounds + k) = omega arith in
      rw shape (
        received rounds k c s (recv_frame 5000 c.client) (recv_frame-Framed 5000 c.client) h
          (handle_client_ends rounds k))
