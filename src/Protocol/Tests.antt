-- ===== src/Protocol/Tests.antt =====
-- Runs of the codec, and each theorem about it at an input.
use le_kv.Base.{◌≡◌, refl, some, [], ◌∷◌, ◌++◌, arith}
use le_kv.Bytes.{Bytes}
use le_kv.Protocol.{decoded, rejected, try_decode, encode_request, op_put}
use le_kv.Protocol.RoundTrip.{try_decode-encode_request, request_payload}

abbrev key : Bytes
key = b'k' ∷ b'1' ∷ []

abbrev value : Bytes
value = 7 ∷ 8 ∷ 9 ∷ []

put_frame :
    encode_request 5 op_put key value
    ≡ 0 ∷ 0 ∷ 0 ∷ 22 ∷ 0x4c ∷ 1 ∷ 0 ∷ 0 ∷ 0 ∷ 5 ∷ 3 ∷ 0 ∷ 2 ∷ 0 ∷ 0 ∷ 0 ∷ 3 ∷ b'k' ∷ b'1' ∷ 7 ∷ 8
      ∷ 9 ∷ []
unfolding encode_request
put_frame = refl

-- A wrong version skips one byte.
wrong_version : try_decode (0 ∷ 0 ∷ 0 ∷ 10 ∷ 0x4c ∷ 2 ∷ 0 ∷ 0 ∷ 0 ∷ 5 ∷ []) ≡ some (rejected 1)
unfolding try_decode
wrong_version = refl

try_decode-encode_request_example :
    try_decode (encode_request 5 op_put key value ++ [])
    ≡ some (decoded 22 5 (request_payload op_put key value))
try_decode-encode_request_example =
    try_decode-encode_request 5 op_put key value [] (omega arith) (omega arith) (omega arith)

abbrev short_frame : Bytes
short_frame = 0 ∷ 0 ∷ 0 ∷ 9 ∷ 0x4c ∷ 1 ∷ 0 ∷ 0 ∷ 0 ∷ 5 ∷ []

abbrev empty_frame : Bytes
empty_frame = 0 ∷ 0 ∷ 0 ∷ 10 ∷ 0x4c ∷ 1 ∷ 0 ∷ 0 ∷ 0 ∷ 5 ∷ []
