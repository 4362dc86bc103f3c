-- ===== src/DataNode.antt =====
-- The request handlers of a data node in kv/raft_node.cpp, over its storage engine (`none` is a
-- `storage_` that failed to open). Each takes the storage and a payload, and returns the response
-- payload and the storage. The outer `none` is a read past the end of the payload.
pub mod KeyValue
pub mod Safety
mod Tests
use le_kv.Base.{
  ℕ, ◌+◌, Bool, true, false, not, Option, none, some, List, [], ◌∷◌, ◌++◌, ◌==◌, ltb, if◌then◌else◌,
  length, ◌>>=◌,
}
use le_kv.Bytes.{Bytes}
use le_kv.Bytes.Endian.{be16, be32, u16, u32, read16, read32, slice}
use le_kv.Protocol.{st_ok, st_not_found, st_bad_request, st_timeout}
use le_kv.Storage
use le_kv.Storage.{Stats}
use le_kv.Storage.Api.{LevelDb}

-- The start and end keys of a range request: [op][2B][start][2B][end]; the inner `none` is a bad
-- request. Three handlers begin with these lines.
unfoldable pub range_bounds : Bytes → Option (Option (Bytes × Bytes))
unfolding read16 slice
range_bounds payload = if ltb (length payload) 5 then some none else do
  sl ← read16 payload 1
  if ltb (length payload) (1 + 2 + sl + 2) then some none else do
    start ← slice payload 3 sl
    el ← read16 payload (3 + sl)
    if ltb (length payload) (1 + 2 + sl + 2 + el)
        then some none
        else do stop ← slice payload (3 + sl + 2) el; some (some (start, stop))

-- The callback of HandleDataNodeScanRange: it appends an entry to the body and counts it.
abbrev pub scan_entry : Bytes × ℕ → Bytes → Bytes → Bool × (Bytes × ℕ)
scan_entry (body, count) k v = (
  true,
  (body ++ (be16 (u16 (length k)) ++ (k ++ (be32 (u32 (length v)) ++ v))), u32 (count + 1)),
)

module _ (level : LevelDb) where
  open level use {Db}

  -- A handler's result.
  abbrev pub Reply : Type 0
  Reply = Option (Bytes × Option Db)

  abbrev pub reply : ℕ → Option Db → Reply
  reply status storage = some (status ∷ [], storage)

  -- `!storage_ || !storage_->Put(key, value)`
  unfoldable pub store_put : Option Db → Bytes → Bytes → Bool × Option Db
  store_put none key value = (false, none)
  store_put (some d) key value = let (good, d') = Storage.put level d key value in (good, some d')

  unfoldable pub store_delete : Option Db → Bytes → Bool × Option Db
  store_delete none key = (false, none)
  store_delete (some d) key = let (good, d') = Storage.delete level d key in (good, some d')

  -- HandleDataNodePut. The test adds in `uint32_t`.
  unfoldable pub handle_put : Option Db → Bytes → Reply
  unfolding read16 read32 slice
  handle_put storage payload = if ltb (length payload) 7 then reply st_bad_request storage else do
    key_len ← read16 payload 1
    val_len ← read32 payload 3
    if ltb (length payload) (u32 (7 + key_len + val_len)) then reply st_bad_request storage else do
      key ← slice payload 7 key_len
      value ← slice payload (7 + key_len) val_len
      let (good, storage') = store_put storage key value
      if not good then reply st_timeout storage' else reply st_ok storage'

  -- The end of HandleDataNodeGet.
  unfoldable pub get_reply : Option Db → Bytes → Reply
  get_reply none key = reply st_timeout none
  get_reply (some d) key = elim (Storage.get level d key) [
    | none ↦ reply st_not_found (some d)
    | some val ↦ some (st_ok ∷ val, some d)
  ]

  -- HandleDataNodeGet. It copies `key_len` bytes with no test that the payload has them.
  unfoldable pub handle_get : Option Db → Bytes → Reply
  unfolding read16 read32 slice
  handle_get storage payload = if ltb (length payload) 7 then reply st_bad_request storage else do
    key_len ← read16 payload 1
    val_len ← read32 payload 3
    if not (val_len == 0)
        then reply st_bad_request storage
        else do key ← slice payload 7 key_len; get_reply storage key

  -- HandleDataNodeDelete
  unfoldable pub handle_delete : Option Db → Bytes → Reply
  unfolding read16 read32 slice
  handle_delete storage payload =
      if ltb (length payload) 7 then reply st_bad_request storage else do
        key_len ← read16 payload 1
        val_len ← read32 payload 3
        if not (val_len == 0)
            then reply st_bad_request storage
            else if ltb (length payload) (7 + key_len)
            then reply st_bad_request storage
            else do
              key ← slice payload 7 key_len
              let (good, storage') = store_delete storage key
              if not good then reply st_timeout storage' else reply st_ok storage'

  -- DataNodeGetTabletStats; its Boolean result is dropped by its caller.
  unfoldable pub tablet_stats : Option Db → Bytes → Bytes → Option Stats
  tablet_stats none start stop = some (record { key_count = 0; median_key = [] })
  tablet_stats (some d) start stop = Storage.range_stats level d start stop

  -- HandleDataNodeTabletStats: [OK][4B key_count][2B median_len][median_key]
  unfoldable pub handle_tablet_stats : Option Db → Bytes → Reply
  unfolding range_bounds
  handle_tablet_stats storage payload = do
    bounds ← range_bounds payload
    elim bounds [
      | none ↦ reply st_bad_request storage
      | some b ↦ do
        st ← tablet_stats storage b.0 b.1
        some (
          st_ok ∷ (be32 (u32 st.key_count) ++ (be16 (u16 (length st.median_key)) ++ st.median_key)),
          storage,
        )
    ]

  -- The scan of HandleDataNodeScanRange: the body, with the count filled in.
  unfoldable pub scan_body : Db → Bytes → Bytes → Bytes
  scan_body d start stop =
      let (entries, count) = Storage.range_query level d start stop scan_entry ([], 0) in
      be32 count ++ entries

  -- HandleDataNodeScanRange
  unfoldable pub handle_scan_range : Option Db → Bytes → Reply
  unfolding range_bounds scan_body
  handle_scan_range storage payload = do
    bounds ← range_bounds payload
    elim bounds [
      | none ↦ reply st_bad_request storage
      | some b ↦ elim storage [
        | none ↦ reply st_timeout none
        | some d ↦ some (st_ok ∷ scan_body d b.0 b.1, some d)
      ]
    ]

  -- HandleDataNodeDeleteRange
  unfoldable pub handle_delete_range : Option Db → Bytes → Reply
  unfolding range_bounds
  handle_delete_range storage payload = do
    bounds ← range_bounds payload
    elim bounds [
      | none ↦ reply st_bad_request storage
      | some b ↦ elim storage [
        | none ↦ reply st_timeout none
        | some d ↦
            let (good, d') = Storage.delete_range level d b.0 b.1 in
            if not good then reply st_timeout (some d') else reply st_ok (some d')
      ]
    ]
