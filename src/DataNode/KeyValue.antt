-- ===== src/DataNode/KeyValue.antt =====
-- PUT, GET and DELETE requests, as the encoders write them, against a map of keys to values.
use le_kv.Base.{
  ℕ, ◌+◌, ◌*◌, ◌/◌, ◌%◌, ◌<◌, not, Option, some, [], ◌∷◌, ◌++◌, ◌≡◌, ◌≢◌, refl, ◌∙◌, if◌then◌else◌,
  arith, length, length-append, append-nil,
}
use le_kv.Bytes.{Bytes}
use le_kv.Bytes.Endian.{be16, be32, slice, slice_past}
use le_kv.Protocol.{st_ok, st_not_found, st_timeout, op_put, op_get, op_delete}
use le_kv.Protocol.RoundTrip.{request_payload}
use le_kv.Storage
use le_kv.Storage.Api.{LevelDb}
use le_kv.DataNode.{
  reply, store_put, store_delete, handle_put, handle_get, handle_delete, get_reply,
}

join16 : (n : ℕ) → n < 65536 → n / 256 % 256 * 256 + n % 256 ≡ n
join16 n h = omega arith

join32 :
    (n : ℕ)
    → n < 4294967296
    → n / 16777216 % 256 * 16777216 + n / 65536 % 256 * 65536 + n / 256 % 256 * 256 + n % 256 ≡ n
join32 n h = omega arith

-- The key and the value of a request stand where the handlers look for them.
request_key : (op : ℕ) (k v : Bytes) → slice (request_payload op k v) 7 (length k) ≡ some k
request_key op k v =
    slice_past 7 (length k) (op ∷ (be16 (length k) ++ be32 (length v))) k v refl refl

request_value :
    (op : ℕ) (k v : Bytes) → slice (request_payload op k v) (7 + length k) (length v) ≡ some v
unfolding slice
request_value op k v = rw (append-nil v) at (
    slice_past (7 + length k) (length v) (op ∷ (be16 (length k) ++ (be32 (length v) ++ k))) v []
      (omega arith) refl)

module _ (level : LevelDb) (storage : Option level.Db) (k v : Bytes) where
  pub handle_put_request :
      (op : ℕ)
      → length k < 65536
      → 7 + length k + length v < 4294967296
      → handle_put level storage (request_payload op k v) ≡ (
          let (good, storage') = store_put level storage k v in
          if not good then reply level st_timeout storage' else reply level st_ok storage')
  unfolding handle_put
  handle_put_request op hk hv = ground (
    arith,
    join16 (length k) hk,
    join32 (length v) (omega arith),
    request_key op k v,
    request_value op k v,
    length-append k v,
  )

  handle_delete_request :
      (op : ℕ)
      → length k < 65536
      → handle_delete level storage (request_payload op k []) ≡ (
          let (good, storage') = store_delete level storage k in
          if not good then reply level st_timeout storage' else reply level st_ok storage')
  unfolding handle_delete
  handle_delete_request op hk =
      ground (arith, join16 (length k) hk, request_key op k [], append-nil k)

  handle_get_request :
      (op : ℕ)
      → length k < 65536
      → handle_get level storage (request_payload op k []) ≡ get_reply level storage k
  unfolding handle_get
  handle_get_request op hk = ground (arith, join16 (length k) hk, request_key op k [])

module _ (level : LevelDb) (d : level.Db) (k : Bytes) (hk : length k < 65536) where
  -- What a PUT that is answered OK has stored is read back by a GET of its key right after it, and the
  -- PUT changes the value under no other key. The key is shorter than 2^16 bytes, and the payload fits
  -- 32 bits.
  pub get-put_request :
      (v : Bytes) (d' : level.Db)
      → 7 + length k + length v < 4294967296
      → handle_put level (some d) (request_payload op_put k v) ≡ some (st_ok ∷ [], some d')
      → (handle_get level (some d') (request_payload op_get k []) ≡ some (st_ok ∷ v, some d'))
        × ((j : Bytes) → j ≢ k → Storage.get level d' j ≡ Storage.get level d j)
  unfolding store_put get_reply Storage.put Storage.get
  get-put_request v d' hv e =
      let p = handle_put_request level (some d) k v op_put hk hv in
      (
        handle_get_request level (some d') k [] op_get hk
            ∙ ground (arith, p, e, level.get-put_self d k v),
        λ j n. ground (arith, p, e, level.get-put_ne d k v j),
      )

  -- A DELETE that is answered OK makes GET of its key answer NOT_FOUND, and changes no other key.
  -- The key is shorter than 2^16 bytes.
  pub get-delete_request :
      (d' : level.Db)
      → handle_delete level (some d) (request_payload op_delete k []) ≡ some (st_ok ∷ [], some d')
      → (handle_get level (some d') (request_payload op_get k [])
          ≡ some (st_not_found ∷ [], some d'))
        × ((j : Bytes) → j ≢ k → Storage.get level d' j ≡ Storage.get level d j)
  unfolding store_delete get_reply Storage.delete Storage.get
  get-delete_request d' e =
      let p = handle_delete_request level (some d) k [] op_delete hk in
      (
        handle_get_request level (some d') k [] op_get hk
            ∙ ground (arith, p, e, level.get-delete_self d k),
        λ j n. ground (arith, p, e, level.get-delete_ne d k j),
      )
