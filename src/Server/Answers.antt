-- ===== src/Server/Answers.antt =====
-- HandleClient answers the requests of its client in order.
use le_kv.Base.{
  ℕ, zero, suc, ◌+◌, ◌*◌, ◌-◌, ◌<◌, ◌≤◌, Bool, true, false, Option, none, some, List, [], ◌∷◌, ◌++◌,
  ◌≡◌, refl, ap, sym, ◌∙◌, arith, length, length-append, append_assoc, append-nil, if◌then◌else◌,
  >>=-eq-some,
}
use le_kv.Base
use mathlib.Core.Path.{subst}
use le_kv.Bytes.{Bytes}
use le_kv.Bytes.Endian.{read32}
use le_kv.Protocol.{encode_custom_request}
use le_kv.Protocol.RoundTrip.{try_decode-encode_custom_request}
use le_kv.Rpc.Framing.{bytes_of, waiting, IsFramed, recv_frame-frame}
use le_kv.Server.{
  Connection, Handler, Serving, respond, send_response, send_round, decode_round, frame_round,
  handle_client,
}
use le_kv.Server.Sending.{AllTaken, send_response_all}

-- A request: its id and its payload.
abbrev pub Request : Type 0
Request = ℕ × Bytes

abbrev pub Fits : Request → Type 0
Fits (req_id, payload) = (req_id < 4294967296) × (10 + length payload < 4294967296)

abbrev pub AllFit : List Request → Type 0
AllFit [] = Unit {0}
AllFit (r ∷ rs) = Fits r × AllFit rs

-- The frames of the requests, one after the other.
abbrev pub frames_of : List Request → Bytes
frames_of [] = []
frames_of (r ∷ rs) = encode_custom_request r.0 r.1 ++ frames_of rs

encode_custom_request-IsFramed : (r : Request) → Fits r → IsFramed (encode_custom_request r.0 r.1)
unfolding encode_custom_request read32
encode_custom_request-IsFramed (req_id, payload) (hr, hp) = (omega arith, ap some (omega arith))

module _ {S : Type 0} (handler : Handler S) where
  -- What a server does, without its stream: it handles the requests in order, and answers each.
  unfoldable pub answer_all : S → List Request → Option (Bytes × S)
  answer_all s [] = some ([], s)
  answer_all s (r ∷ rs) =
      Base.◌>>=◌ (handler s r.0 r.1)
        λ x. Base.◌>>=◌ (answer_all x.1 rs) λ y. some (respond r.0 x.0 ++ y.0, y.1)

  -- The connection after requests were answered with `sent`, and `rest` is still to come.
  pub record Answered (c : Connection) (sent rest : Bytes) (c' : Connection) : Type 0 where
    pub out : c'.out ≡ c.out ++ sent
    pub left : bytes_of c'.client ≡ rest
    pub wait : waiting c'.client.socket ≤ waiting c.client.socket
    pub taking : AllTaken c'.sends
    pub enough : length c.sends ≤ length c'.sends + length sent

  send_round-all :
      (next : Serving handler) (req_id : ℕ) (resp : Bytes) (c : Connection) (s : S)
      → AllTaken c.sends
      → length (respond req_id resp) ≤ length c.sends
      → send_round handler next req_id resp c s
        ≡ next
            (record c {
              sends = (send_response c.sends (respond req_id resp)).2;
              out = c.out ++ respond req_id resp;
            })
            s
  unfolding send_round
  send_round-all next req_id resp c s a n =
      let (good, whole, taking, enough) = send_response_all c.sends (respond req_id resp) a n in
      rw (good, whole, send_round)

  -- One request.
  answer_one :
      (rounds : ℕ) (c : Connection) (s s' : S) (r : Request) (resp rest : Bytes)
      → bytes_of c.client ≡ encode_custom_request r.0 r.1 ++ rest
      → Fits r
      → waiting c.client.socket < 5000
      → AllTaken c.sends
      → length (respond r.0 resp) ≤ length c.sends
      → handler s r.0 r.1 ≡ some (resp, s')
      → (c' : Connection) × Answered c (respond r.0 resp) rest c'
        × (handle_client handler (suc rounds) c s ≡ handle_client handler rounds c' s')
  unfolding handle_client frame_round decode_round
  answer_one rounds c s s' r resp rest stream f w a n h =
      let (cl, e, left, wait) =
        recv_frame-frame 5000 c.client (encode_custom_request r.0 r.1) rest stream
          (encode_custom_request-IsFramed r f) w in
      let (good, whole, taking, enough) = send_response_all c.sends (respond r.0 resp) a n in
      let d =
        rw (append-nil (encode_custom_request r.0 r.1)) at
          (try_decode-encode_custom_request r.0 r.1 [] f.0 f.1) in
      (
        record {
          client = cl;
          sends = (send_response c.sends (respond r.0 resp)).2;
          out = c.out ++ respond r.0 resp;
        },
        record { out = refl; left = left; wait = wait; taking = taking; enough = enough },
        rw e (
            rw d (
              rw h (
                send_round-all (handle_client handler rounds) r.0 resp (record c { client = cl }) s'
                  a n))),
      )

  Answered-trans :
      (c c1 c2 : Connection) (x y rest rest' : Bytes)
      → Answered c x rest c1
      → Answered c1 y rest' c2
      → Answered c (x ++ y) rest' c2
  Answered-trans c c1 c2 x y rest rest' a b =
      let wa = a.wait in
      let wb = b.wait in
      let ea = a.enough in
      let eb = b.enough in
      record {
        out = b.out ∙ (ap (λ z. z ++ y) a.out ∙ append_assoc c.out x y);
        left = b.left;
        wait = omega arith;
        taking = b.taking;
        enough = omega (arith, length-append x y);
      }

  -- The answer to one request, then those to the others.
  answers_cons :
      (n more : ℕ) (c c1 c2 : Connection) (s s1 s2 s' : S) (x y sent rest rest' : Bytes)
      → x ++ y ≡ sent
      → s2 ≡ s'
      → Answered c x rest c1
      → handle_client handler (suc (n + more)) c s ≡ handle_client handler (n + more) c1 s1
      → Answered c1 y rest' c2
      → handle_client handler (n + more) c1 s1 ≡ handle_client handler more c2 s2
      → Answered c sent rest' c2
        × (handle_client handler (suc n + more) c s ≡ handle_client handler more c2 s')
  answers_cons n more c c1 c2 s s1 s2 s' x y sent rest rest' both final a step b run =
      let shape : suc n + more ≡ suc (n + more) = omega arith in
      (
        subst (λ z. Answered c z rest' c2) both (Answered-trans c c1 c2 x y rest rest' a b),
        rw (shape, ← final) (step ∙ run),
      )

  -- HandleClient answers any number of requests in order, each as the handler does, and leaves what
  -- follows them: if their frames arrive in any pieces, the waiting that RecvAll counts stays below
  -- the timeout, and the socket takes at least a byte at each `send`, as often as needed.
  pub handle_client-answer_all :
      (more : ℕ) (rs : List Request) (c : Connection) (s s' : S) (sent rest : Bytes)
      → bytes_of c.client ≡ frames_of rs ++ rest
      → AllFit rs
      → waiting c.client.socket < 5000
      → AllTaken c.sends
      → length sent ≤ length c.sends
      → answer_all s rs ≡ some (sent, s')
      → (c' : Connection) × (Answered c sent rest c'
          × (handle_client handler (length rs + more) c s ≡ handle_client handler more c' s'))
  unfolding answer_all
  handle_client-answer_all more [] c s s' sent rest stream f w a n h =
      let nothing : [] ≡ sent = cc in
      let same : s ≡ s' = cc in
      (
        c,
        (
          record {
            out = rw (← nothing) (sym (append-nil c.out));
            left = stream;
            wait = omega arith;
            taking = a;
            enough = omega arith;
          },
          ap (λ k. handle_client handler k c s) (omega arith)
              ∙ ap (handle_client handler more c) same,
        ),
      )
  handle_client-answer_all more (r ∷ rs) c s s' sent rest stream (fr, f) w a n h =
      let ((resp, s1), hr, h1) = >>=-eq-some (handler s r.0 r.1) _ h in
      let ((sent1, s2), hs, h2) = >>=-eq-some (answer_all s1 rs) _ h1 in
      let both : respond r.0 resp ++ sent1 ≡ sent = cc in
      let final : s2 ≡ s' = cc in
      let sizes : length sent ≡ length (respond r.0 resp) + length sent1 =
        ap length (sym both) ∙ length-append (respond r.0 resp) sent1 in
      let (c1, one, step) =
        answer_one (length rs + more) c s s1 r resp (frames_of rs ++ rest)
          (stream ∙ append_assoc (encode_custom_request r.0 r.1) (frames_of rs) rest) fr w a
          (omega arith) hr in
      let e1 = one.enough in
      let w1 = one.wait in
      let (c', (others, run)) =
        handle_client-answer_all more rs c1 s1 s2 sent1 rest one.left f (omega arith) one.taking
          (omega arith) hs in
      (
        c',
        answers_cons (length rs) more c c1 c' s s1 s2 s' (respond r.0 resp) sent1 sent
            (frames_of rs ++ rest) rest both final one step others run,
      )
