-- ===== src/Cli.antt =====
-- lekv_cli.cpp: the client's route table, its requests over RpcClient, and what it makes of the
-- replies. The outer `none` is an exception or undefined behaviour; `false` is the result false.
pub mod Text
pub mod Session
pub mod Commands
pub mod Loop
pub mod Route
pub mod Numbers
pub mod Shards
pub mod Exchange
pub mod Fetch
pub mod Get
mod Tests
use le_kv.Base.{
  ℕ, zero, suc, ◌+◌, ◌-◌, Bool, true, false, not, ◌&&◌, Option, none, some, List, [], ◌∷◌, ◌++◌,
  ◌==◌, ltb, leb, if◌then◌else◌, length, get_elem?, take, drop, ◌>>=◌,
}
use le_kv.Bytes.{Bytes, lt_bytes, le_bytes, is_empty}
use le_kv.Bytes.Endian.{u32, read32, slice}
use le_kv.Protocol.{
  Decoded, rejected, decoded, try_decode, encode_request, op_shards, st_ok, st_not_found,
  st_not_my_shard, op_get, op_put, op_delete,
}
use le_kv.Routing.{search_loop}
use le_kv.Rpc.{Client, Received, SendResult, recv_frame, send_loop}
use Text.{words_from, read_unsigned, split_colons}

-- CachedTablet
pub record CachedTablet : Type 0 where
  pub id : ℕ
  pub start : Bytes
  pub end : Bytes
  pub addr : Bytes

-- The end of FindRoute, after its search.
abbrev pub route_found : List CachedTablet → Bytes → ℕ → Option (Option Bytes)
route_found tablets key left = if left == 0 then some none else do
  t ← get_elem? tablets (left - 1)
  some (if not (is_empty t.end) && le_bytes t.end key then none else some t.addr)

-- FindRoute: the address of the key's data node; the inner `none` is the result false.
unfoldable pub find_route : List CachedTablet → Bytes → Option (Option Bytes)
find_route [] key = some none
find_route (t ∷ ts) key = do
  left ← search_loop (λ t. t.start) (t ∷ ts) key (length (t ∷ ts)) 0 (length (t ∷ ts))
  route_found (t ∷ ts) key left

-- The parts of a segment as a tablet, if there are four. `parts[4]` is read even if there are four
-- only, and stoull throws on what is no number.
unfoldable pub tablet_of_parts : List Bytes → Option (Option CachedTablet)
tablet_of_parts parts = if ltb (length parts) 4 then some none else do
  first ← get_elem? parts 0
  number ← read_unsigned first
  start ← get_elem? parts 1
  end ← get_elem? parts 2
  ip ← get_elem? parts 3
  port ← get_elem? parts 4
  some (some (record { id = number.0; start = start; end = end; addr = ip ++ (b':' ∷ port) }))

abbrev pub push_back_some : Option CachedTablet → List CachedTablet → List CachedTablet
push_back_some none out = out
push_back_some (some t) out = t ∷ out

-- The loop of FetchRouteTable over the segments.
unfoldable pub tablets_of_segments : List Bytes → Option (List CachedTablet)
unfolding tablet_of_parts
tablets_of_segments [] = some []
tablets_of_segments (segment ∷ segments) = do
  t ← tablet_of_parts (split_colons segment)
  out ← tablets_of_segments segments
  some (push_back_some t out)

unfoldable pub insert_by_start : CachedTablet → List CachedTablet → List CachedTablet
insert_by_start t [] = t ∷ []
insert_by_start t (u ∷ us) =
    let rest = insert_by_start t us in if lt_bytes u.start t.start then u ∷ rest else t ∷ u ∷ us

-- The sort by start. The source leaves the order of equal starts open; here they keep theirs.
unfoldable pub sort_by_start : List CachedTablet → List CachedTablet
sort_by_start [] = []
sort_by_start (t ∷ ts) = insert_by_start t (sort_by_start ts)

-- The text of a SHARDS reply as a table: the count is read and not used, but if it is no number the
-- stream fails, and there are no segments.
unfoldable pub tablets_of_body : Bytes → Option (List CachedTablet)
unfolding tablets_of_segments sort_by_start
tablets_of_body body = elim (read_unsigned body) [
  | none ↦ some []
  | some counted ↦ do out ← tablets_of_segments (words_from [] counted.1); some (sort_by_start out)
]

-- A socket: what arrives, what it answers to `send`, and what was sent on it.
pub record Socket : Type 0 where
  pub received : List Received
  pub sends : List SendResult
  pub out : Bytes

-- RpcClient: `buf_`, and the socket if `fd_` is one.
pub record RpcClient : Type 0 where
  pub buf : Bytes
  pub fd : Option Socket

-- RpcClient::Send
unfoldable pub send : RpcClient → Bytes → Bool × RpcClient
send c msg = elim (c.fd) [
  | none ↦ (false, c)
  | some s ↦
      let (good, sent, sends) = send_loop s.sends msg in
      (good, record c { fd = some (record s { sends = sends; out = s.out ++ sent }) })
]

-- RpcClient::RecvFrame. Without a socket RecvAll fails at once if the buffer is too short for its
-- need; `recv` on fd -1 is an error.
unfoldable pub receive : RpcClient → ℕ → Option (Option Bytes × RpcClient)
receive c timeout_ms = elim (c.fd) [
  | none ↦ some (none, c)
  | some s ↦ do
    r ← recv_frame timeout_ms (record { buf = c.buf; socket = s.received })
    some (r.0, record { buf = r.1.buf; fd = some (record s { received = r.1.socket }) })
]

-- A frame decoded, or rejected.
abbrev pub frame_payload : Decoded → Option (ℕ × Bytes)
frame_payload (rejected n) = none
frame_payload (decoded n req_id payload) = some (req_id, payload)

-- The end of SendAndRecv, after a frame was received.
abbrev pub decode_frame : Option Bytes → RpcClient → Option (Option (ℕ × Bytes) × RpcClient)
decode_frame none c = some (none, c)
decode_frame (some frame) c = do d ← try_decode frame; some (frame_payload d, c)

-- SendAndRecv: the reply's request id and payload; the inner `none` is the result false.
unfoldable pub send_and_recv : RpcClient → Bytes → Option (Option (ℕ × Bytes) × RpcClient)
unfolding send receive
send_and_recv c req =
    let (good, c1) = send c req in
    elim good [ false ↦ some (none, c1) | true ↦ do r ← receive c1 5000; decode_frame r.0 r.1 ]

abbrev pub is_connected : RpcClient → Bool
is_connected c = elim (c.fd) [ none ↦ false | some s ↦ true ]

-- RpcClient::Close. The buffer keeps its bytes.
abbrev pub close : RpcClient → RpcClient
close c = record c { fd = none }

-- Why DoDataNodeRequest returns false, by its messages.
pub data RequestFailure : Type 0 where
  invalid_addr : RequestFailure
  connect_failed : RequestFailure
  recv_timeout : RequestFailure
  empty_payload : RequestFailure

-- The value of a data node's reply. The sum `5 + val_len` has 32 bits.
unfoldable pub reply_value : Bytes → Option Bytes
reply_value payload = if ltb (length payload) 5 then some [] else do
  val_len ← read32 payload 1
  if ltb 0 val_len && leb (u32 (5 + val_len)) (length payload)
      then slice payload 5 val_len
      else some []

-- What a line makes the client print.
pub data Outcome : Type 0 where
  nothing : Outcome
  bye : Outcome
  help : Outcome
  routes : List CachedTablet → Outcome
  no_routes : Outcome
  no_key : Outcome
  no_route : Outcome
  no_answer : RequestFailure → Outcome
  value_of : Bytes → Outcome
  good : Outcome
  not_found : Outcome
  stale_route : Outcome
  bad_status : ℕ → Bytes → Outcome

-- What a get prints for a result: `result.empty() ? "(empty)" : result`.
abbrev pub shown : Bytes → Bytes
shown [] = b'(' ∷ b'e' ∷ b'm' ∷ b'p' ∷ b't' ∷ b'y' ∷ b')' ∷ []
shown (b ∷ result) = b ∷ result

-- The end of Execute, after a data node's reply: whether the command was get, the status, the value.
unfoldable pub outcome_of : Bool → ℕ → Bytes → Outcome
outcome_of was_get status result =
    if status == st_ok
    then if was_get then value_of (shown result) else good
    else if status == st_not_found
    then not_found
    else if status == st_not_my_shard
    then stale_route
    else bad_status status result
