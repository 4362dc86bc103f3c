-- ===== src/Rpc.antt =====
-- Receiving frames in rpc/rpc_client.cpp: RecvAll and RecvFrame, over what a socket's `recv` returns.
pub mod Framing
pub mod Safety
pub mod Sending
mod Tests
use le_kv.Base.{
  ℕ, ◌+◌, ◌-◌, Bool, true, false, Option, none, some, List, [], ◌∷◌, ◌++◌, ◌==◌, ltb, leb,
  if◌then◌else◌, length, take, drop,
}
use le_kv.Base
use le_kv.Bytes.{Bytes}
use le_kv.Bytes.Endian.{read32}

-- What `recv` returns: bytes, 0 (the peer has closed), EAGAIN, or another error.
pub data Received : Type 0 where
  bytes : Bytes → Received
  closed : Received
  again : Received
  failed : Received

-- A client: the bytes in `buf_`, and what its socket will return; at the end, the peer has closed.
pub record Client : Type 0 where
  pub buf : Bytes
  pub socket : List Received

-- RecvAll on an open socket: the bytes needed and the milliseconds left.
unfoldable pub recv_all : ℕ → ℕ → Bytes → List Received → Bool × Client
recv_all need timeout_ms buf [] = (leb need (length buf), record { buf = buf; socket = [] })
recv_all need timeout_ms buf (r ∷ socket) = elim (ltb (length buf) need) [
  | false ↦ (true, record { buf = buf; socket = r ∷ socket })
  | true ↦ elim r [
    | bytes b ↦ recv_all need timeout_ms (buf ++ b) socket
    | closed ↦ (false, record { buf = buf; socket = socket })
    | again ↦ elim (leb timeout_ms 10) [
      | true ↦ (false, record { buf = buf; socket = socket })
      | false ↦ recv_all need (timeout_ms - 10) buf socket
    ]
    | failed ↦ (false, record { buf = buf; socket = socket })
  ]
]

-- RecvFrame, after the header is there: the length is checked, the rest received and split off.
unfoldable pub recv_rest : ℕ → Client → Option (Option Bytes × Client)
recv_rest timeout_ms c = Base.◌>>=◌ (read32 c.buf 0) λ frame_len.
    if ltb frame_len 10
    then some (none, c)
    else let (good, c') = recv_all frame_len timeout_ms c.buf c.socket in
      some (
        if good
        then (some (take frame_len c'.buf), record c' { buf = drop frame_len c'.buf })
        else (none, c'))

-- RecvFrame; the inner `none` is the result false, the outer one a read outside the buffer.
unfoldable pub recv_frame : ℕ → Client → Option (Option Bytes × Client)
unfolding recv_rest
recv_frame timeout_ms c =
    let (good, c') = recv_all 4 timeout_ms c.buf c.socket in
    if good then recv_rest timeout_ms c' else some (none, c')

-- What `send` returns: how many bytes it took, EAGAIN, or another error.
pub data SendResult : Type 0 where
  taken : ℕ → SendResult
  busy : SendResult
  refused : SendResult

-- The loop of RpcClient::Send: whether all was sent, what was, and what `send` returns next.
unfoldable pub send_loop : List SendResult → Bytes → Bool × Bytes × List SendResult
send_loop sends [] = (true, [], sends)
send_loop [] (b ∷ left) = (false, [], [])
send_loop (busy ∷ sends) (b ∷ left) = send_loop sends (b ∷ left)
send_loop (refused ∷ sends) (b ∷ left) = (false, [], sends)
send_loop (taken n ∷ sends) (b ∷ left) = elim (n == 0) [
  | true ↦ (false, [], sends)
  | false ↦
      let (good, sent, sends') = send_loop sends (drop n (b ∷ left)) in
      (good, take n (b ∷ left) ++ sent, sends')
]
