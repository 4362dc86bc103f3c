-- ===== src/Protocol.antt =====
-- rpc/binary_protocol.h and rpc/binary_protocol.cpp: the frames of the binary protocol.
-- A frame is [4B length][magic][version][4B request id][payload], integers in network order.
-- The four encoders compute their lengths in `uint16_t` and `uint32_t`, so the casts are kept.
pub mod RoundTrip
pub mod Safety
mod Tests
use le_kv.Base.{
  ℕ, ◌+◌, ◌-◌, ◌*◌, Option, none, some, List, [], ◌∷◌, ◌++◌, ltb, ◌==◌, not, if◌then◌else◌, length,
  get_elem?, ◌>>=◌,
}
use le_kv.Bytes.{Bytes}
use le_kv.Bytes.Endian.{be16, be32, u16, u32, read32, slice}

abbrev pub magic : ℕ
magic = 0x4c

abbrev pub version : ℕ
version = 0x01

abbrev pub op_get_route : ℕ
op_get_route = 0x01

abbrev pub op_get : ℕ
op_get = 0x02

abbrev pub op_put : ℕ
op_put = 0x03

abbrev pub op_delete : ℕ
op_delete = 0x04

abbrev pub op_shards : ℕ
op_shards = 0x06

abbrev pub op_tablet_stats : ℕ
op_tablet_stats = 0x07

abbrev pub op_scan_range : ℕ
op_scan_range = 0x08

abbrev pub op_delete_range : ℕ
op_delete_range = 0x09

abbrev pub st_ok : ℕ
st_ok = 0x00

abbrev pub st_not_found : ℕ
st_not_found = 0x01

abbrev pub st_not_my_shard : ℕ
st_not_my_shard = 0x02

abbrev pub st_bad_request : ℕ
st_bad_request = 0x03

abbrev pub st_timeout : ℕ
st_timeout = 0x04

abbrev pub st_no_shard : ℕ
st_no_shard = 0x05

-- EncodeGetRoute
unfoldable pub encode_get_route : ℕ → Bytes → Bytes
encode_get_route req_id key =
    let key_len = u16 (length key) in
    let payload_len = u32 (1 + 2 + key_len) in
    let frame_len = u32 (10 + payload_len) in
    be32 frame_len ++ (magic ∷ version ∷ (be32 req_id ++ (op_get_route ∷ (be16 key_len ++ key))))

-- EncodeRequest
unfoldable pub encode_request : ℕ → ℕ → Bytes → Bytes → Bytes
encode_request req_id opcode key value =
    let key_len = u16 (length key) in
    let val_len = u32 (length value) in
    let payload_len = u32 (1 + 2 + 4 + key_len + val_len) in
    let frame_len = u32 (10 + payload_len) in
    be32 frame_len
    ++ (magic
        ∷ version
        ∷ (be32 req_id ++ (opcode ∷ (be16 key_len ++ (be32 val_len ++ (key ++ value))))))

-- EncodeResponse
unfoldable pub encode_response : ℕ → ℕ → Bytes → Bytes
encode_response req_id status value =
    let val_len = u32 (length value) in
    let payload_len = u32 (1 + 4 + val_len) in
    let frame_len = u32 (10 + payload_len) in
    be32 frame_len ++ (magic ∷ version ∷ (be32 req_id ++ (status ∷ (be32 val_len ++ value))))

-- EncodeCustomRequest
unfoldable pub encode_custom_request : ℕ → Bytes → Bytes
encode_custom_request req_id payload =
    let payload_len = u32 (length payload) in
    let frame_len = u32 (10 + payload_len) in
    be32 frame_len ++ (magic ∷ version ∷ (be32 req_id ++ payload))

-- What TryDecode returns: `false` with `consumed`, or `true` with `consumed`, the request id and
-- the payload.
pub data Decoded : Type 0 where
  rejected : ℕ → Decoded
  decoded : ℕ → ℕ → Bytes → Decoded

-- TryDecode. `none` is a copy that would run past the end of the buffer: `frame_len - 10` wraps
-- for a frame length below 10.
unfoldable pub try_decode : Bytes → Option Decoded
unfolding read32 slice
try_decode buf = if ltb (length buf) 10 then some (rejected 0) else do
  frame_len ← read32 buf 0
  if ltb (length buf) frame_len then some (rejected 0) else do
    m ← get_elem? buf 4
    v ← get_elem? buf 5
    if not (m == magic)
        then some (rejected 1)
        else if not (v == version)
        then some (rejected 1)
        else do
          req_id ← read32 buf 6
          payload ← slice buf 10 (u32 (frame_len + 4294967296 - 10))
          some (decoded frame_len req_id payload)
