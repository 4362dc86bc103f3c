-- ===== src/Protocol/RoundTrip.antt =====
-- What the encoders of rpc/binary_protocol.cpp write, TryDecode reads back.
use le_kv.Base.{
  ℕ, ◌+◌, ◌-◌, ◌*◌, ◌/◌, ◌%◌, ◌<◌, ◌≡◌, refl, some, ◌∷◌, ◌++◌, arith, length, length-append,
}
use le_kv.Bytes.{Bytes}
use le_kv.Bytes.Endian.{be16, be32, u16, u32, take_past}
use le_kv.Protocol.{
  magic, version, encode_get_route, encode_request, encode_response, encode_custom_request,
  op_get_route, decoded, try_decode,
}

recombine :
    (n : ℕ)
    → n < 4294967296
    → n / 16777216 % 256 * 16777216 + n / 65536 % 256 * 65536 + n / 256 % 256 * 256 + n % 256 ≡ n
recombine n h = omega arith

-- A whole frame at the start of the buffer.
pub try_decode-frame :
    (f req_id : ℕ) (payload rest : Bytes)
    → f ≡ 10 + length payload
    → f < 4294967296
    → req_id < 4294967296
    → try_decode (be32 f ++ (magic ∷ version ∷ (be32 req_id ++ (payload ++ rest))))
      ≡ some (decoded f req_id payload)
unfolding try_decode
try_decode-frame f req_id payload rest e hf hr = ground (
  arith,
  recombine f hf,
  recombine req_id hr,
  length-append payload rest,
  take_past (u32 (f + 4294967296 - 10)) payload rest (omega arith),
)

-- A frame of EncodeCustomRequest, followed by any bytes, is decoded to its request id and payload,
-- and exactly its bytes are consumed, if its length fits 32 bits.
pub try_decode-encode_custom_request :
    (req_id : ℕ) (payload rest : Bytes)
    → req_id < 4294967296
    → 10 + length payload < 4294967296
    → try_decode (encode_custom_request req_id payload ++ rest)
      ≡ some (decoded (10 + length payload) req_id payload)
unfolding encode_custom_request
try_decode-encode_custom_request req_id payload rest hr hp =
    let e : u32 (10 + u32 (length payload)) ≡ 10 + length payload = omega arith in
    rw e (try_decode-frame (10 + length payload) req_id payload rest refl hp hr)

-- The payloads that the other encoders write.
abbrev pub route_payload : Bytes → Bytes
route_payload key = op_get_route ∷ (be16 (length key) ++ key)

abbrev pub request_payload : ℕ → Bytes → Bytes → Bytes
request_payload opcode key value =
    opcode ∷ (be16 (length key) ++ (be32 (length value) ++ (key ++ value)))

abbrev pub response_payload : ℕ → Bytes → Bytes
response_payload status value = status ∷ (be32 (length value) ++ value)

-- A GET, PUT or DELETE request whose key is shorter than 2^16 bytes and whose frame fits 32 bits is
-- decoded, whatever follows it, to its request id and to the payload of its opcode, both lengths,
-- the key and the value, and exactly its bytes are consumed.
pub try_decode-encode_request :
    (req_id opcode : ℕ) (key value rest : Bytes)
    → req_id < 4294967296
    → length key < 65536
    → 17 + length key + length value < 4294967296
    → try_decode (encode_request req_id opcode key value ++ rest)
      ≡ some (decoded (17 + length key + length value) req_id (request_payload opcode key value))
unfolding encode_request
try_decode-encode_request req_id opcode key value rest hr hk hv =
    let e : u32 (10 + u32 (1 + 2 + 4 + u16 (length key) + u32 (length value)))
        ≡ 17 + length key + length value =
      omega arith in
    let k : u16 (length key) ≡ length key = omega arith in
    let v : u32 (length value) ≡ length value = omega arith in
    rw (e, k, v)
      (try_decode-frame (17 + length key + length value) req_id (request_payload opcode key value)
        rest (omega (arith, length-append key value)) hv hr)

-- A response is decoded, whatever follows it, to its request id and to the payload of its status,
-- the length of its value and the value, if its frame fits 32 bits.
pub try_decode-encode_response :
    (req_id status : ℕ) (value rest : Bytes)
    → req_id < 4294967296
    → 15 + length value < 4294967296
    → try_decode (encode_response req_id status value ++ rest)
      ≡ some (decoded (15 + length value) req_id (response_payload status value))
unfolding encode_response
try_decode-encode_response req_id status value rest hr hv =
    let e : u32 (10 + u32 (1 + 4 + u32 (length value))) ≡ 15 + length value = omega arith in
    let v : u32 (length value) ≡ length value = omega arith in
    rw (e, v)
      (try_decode-frame (15 + length value) req_id (response_payload status value) rest
        (omega arith) hv hr)

-- A GET_ROUTE request whose key is shorter than 2^16 bytes is decoded, whatever follows it, to its
-- request id and to the payload of its opcode, the key's length and the key.
pub try_decode-encode_get_route :
    (req_id : ℕ) (key rest : Bytes)
    → req_id < 4294967296
    → length key < 65536
    → try_decode (encode_get_route req_id key ++ rest)
      ≡ some (decoded (13 + length key) req_id (route_payload key))
unfolding encode_get_route
try_decode-encode_get_route req_id key rest hr hk =
    let e : u32 (10 + u32 (1 + 2 + u16 (length key))) ≡ 13 + length key = omega arith in
    let k : u16 (length key) ≡ length key = omega arith in
    rw (e, k)
      (try_decode-frame (13 + length key) req_id (route_payload key) rest (omega arith)
        (omega arith) hr)
