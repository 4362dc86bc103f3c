-- ===== src/Cluster/Toy.antt =====
-- A small cluster that meets the interface: the nodes are a function of their id, each request is
-- decoded and handled by its node, and one table can be written as JSON.
use le_kv.Base.{
  ℕ, ◌+◌, ◌<◌, ◌≤◌, true, false, Option, none, some, [], ◌∷◌, ◌≡◌, refl, arith, length, inl, inr,
  ltb, ◌==◌, if◌then◌else◌, append-nil, Bool-cases,
}
use le_kv.Bytes.{Bytes}
use le_kv.Bytes.Endian.{read32}
use le_kv.Protocol.{Decoded, decoded, rejected, try_decode, encode_custom_request, st_bad_request}
use le_kv.Protocol.RoundTrip.{try_decode-encode_custom_request}
use le_kv.Cli.Exchange.{encode_response-IsFramed}
use le_kv.Server.{respond}
use le_kv.Routing.{Table}
use le_kv.Storage.Sorted.{sorted_level}
use le_kv.Dispatch.{Node, handle_binary_request}
use le_kv.Master.Interface.{Env}
use le_kv.Master.Toy.{dump_only, parse-dump_only}
use le_kv.Cluster.Nodes.{Only, DataNodes}

pub record ToyWorld : Type 0 where
  pub file : Option Bytes
  pub nodes : ℕ → Node sorted_level

abbrev pub set_node : ToyWorld → ℕ → Node sorted_level → ToyWorld
set_node w id n = record w { nodes = λ j. if j == id then n else w.nodes j }

-- The response of a node, unless it is too long for a frame.
unfoldable deliver : ToyWorld → ℕ → ℕ → Option (Bytes × Node sorted_level) → Option Bytes × ToyWorld
deliver w id req_id none = (none, w)
deliver w id req_id (some (resp, n)) =
    if ltb (15 + length resp) 4294967296
    then (some (respond req_id resp), set_node w id n)
    else (none, w)

unfoldable pub answer_decoded : ToyWorld → ℕ → Option Decoded → Option Bytes × ToyWorld
unfolding deliver
answer_decoded w id none = (none, w)
answer_decoded w id (some (rejected n)) = (none, w)
answer_decoded w id (some (decoded n req_id payload)) =
    deliver w id req_id (handle_binary_request sorted_level (w.nodes id) payload)

abbrev pub IsFrame : Bytes → Type 0
IsFrame frame =
    (10 ≤ length frame) × (length frame < 4294967296) × (read32 frame 0 ≡ some (length frame))

respond-IsFrame :
    (req_id : ℕ) (resp : Bytes) → 15 + length resp < 4294967296 → IsFrame (respond req_id resp)
unfolding respond le_kv.Protocol.encode_response
respond-IsFrame req_id [] h =
    let f = encode_response-IsFramed req_id st_bad_request [] (omega arith) in
    (f.0, omega arith, f.1)
respond-IsFrame req_id (status ∷ value) h =
    let f = encode_response-IsFramed req_id status value (omega arith) in (f.0, omega arith, f.1)

deliver-IsFrame :
    (w : ToyWorld) (id req_id : ℕ) (r : Option (Bytes × Node sorted_level)) (frame : Bytes)
    → (deliver w id req_id r).0 ≡ some frame
    → IsFrame frame
unfolding deliver
deliver-IsFrame w id req_id none frame e = cc
deliver-IsFrame w id req_id (some (resp, n)) frame e =
    elim (Bool-cases (ltb (15 + length resp) 4294967296)) [
      | inl short ↦
          let same : respond req_id resp ≡ frame = ground (arith, short, e) in
          rw same at (respond-IsFrame req_id resp (ground arith))
      | inr long ↦ absurd (ground (arith, long, e))
    ]

pub answer-IsFrame :
    (w : ToyWorld) (id : ℕ) (r : Option Decoded) (frame : Bytes)
    → (answer_decoded w id r).0 ≡ some frame
    → IsFrame frame
unfolding answer_decoded
answer-IsFrame w id none frame e = cc
answer-IsFrame w id (some (rejected n)) frame e = cc
answer-IsFrame w id (some (decoded n req_id payload)) frame e =
    deliver-IsFrame w id req_id (handle_binary_request sorted_level (w.nodes id) payload) frame e

-- The cluster whose JSON can hold the table, besides its nodes.
abbrev pub cluster_env : Table → Env
cluster_env only = record {
  World = ToyWorld;
  connected = λ w node. true;
  call = λ w node req. answer_decoded w node (try_decode req);
  call-frame = λ w node req frame h. answer-IsFrame w node (try_decode req) frame h;
  file = λ w. w.file;
  can_open = λ w. true;
  replace_file = λ w text. record w { file = some text };
  file-replace_file = λ w text. inl (text, [], append-nil text, refl);
  dump = dump_only only;
  parse = λ text. some only;
  parse-dump = parse-dump_only only;
  elapsed_ms = λ w w'. 0;
}

pub set_node-Only :
    (only : Table) (w : ToyWorld) (id : ℕ) (n : Node sorted_level)
    → Only (cluster_env only) sorted_level (λ w. w.nodes) id w (set_node w id n) n
set_node-Only only w id n = record {
  here_now = let same : (id == id) ≡ true = ground arith in rw same refl;
  elsewhere = λ j ne. let other : (j == id) ≡ false = ground arith in rw other refl;
  connected = λ j. refl;
}

pub answer-answer :
    (w : ToyWorld) (id req_id : ℕ) (payload resp : Bytes) (n : Node sorted_level)
    → req_id < 4294967296
    → 10 + length payload < 4294967296
    → handle_binary_request sorted_level (w.nodes id) payload ≡ some (resp, n)
    → 15 + length resp < 4294967296
    → answer_decoded w id (try_decode (encode_custom_request req_id payload))
      ≡ (some (respond req_id resp), set_node w id n)
unfolding answer_decoded deliver
answer-answer w id req_id payload resp n hr hp handled fits =
    let d =
      rw (append-nil (encode_custom_request req_id payload)) at
        (try_decode-encode_custom_request req_id payload [] hr hp) in
    let short : ltb (15 + length resp) 4294967296 ≡ true = ground arith in
    rw (d, handled, short) refl

abbrev pub cluster_nodes : (only : Table) → DataNodes (cluster_env only) sorted_level
cluster_nodes only = record {
  node = λ w. w.nodes;
  call-answer = λ w id req_id payload resp n up hr hp handled fits.
      let e = answer-answer w id req_id payload resp n hr hp handled fits in
      rw e (refl, set_node-Only only w id n);
  node-replace_file = λ w text j. refl;
  connected-replace_file = λ w text j. refl;
}
