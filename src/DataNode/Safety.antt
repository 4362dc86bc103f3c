-- ===== src/DataNode/Safety.antt =====
-- Where the handlers of single keys stay inside their payload, and where they do not.
use le_kv.Base.{
  ℕ, ◌+◌, ◌<◌, ◌≤◌, Option, none, some, ◌∷◌, ◌≡◌, ◌≢◌, arith, Option-cases, length, drop,
  length-drop, ◌⊎◌, inl, inr,
}
use le_kv.Bytes.{Bytes}
use le_kv.Bytes.Endian.{u32, read16, read32, head16, head32}
use le_kv.Storage.Api.{LevelDb}
use le_kv.DataNode.{handle_put, handle_get, handle_delete, range_bounds}

head16-ne-none : (buf : Bytes) → 2 ≤ length buf → head16 buf ≢ none
head16-ne-none (a ∷ b ∷ r) h = cc
head16-ne-none _ h = absurd (omega arith)

head32-ne-none : (buf : Bytes) → 4 ≤ length buf → head32 buf ≢ none
head32-ne-none (a ∷ b ∷ c ∷ d ∷ r) h = cc
head32-ne-none _ h = absurd (omega arith)

module _ (payload : Bytes) where
  -- The lengths of a payload of seven bytes or more can be read.
  key_len_read : 7 ≤ length payload → head16 (drop 1 payload) ≢ none
  key_len_read h = head16-ne-none (drop 1 payload) (omega (arith, length-drop 1 payload))

  val_len_read : 7 ≤ length payload → head32 (drop 3 payload) ≢ none
  val_len_read h = head32-ne-none (drop 3 payload) (omega (arith, length-drop 3 payload))

  -- A length at `i` can be read if two bytes stand there.
  len_read : (i : ℕ) → i + 2 ≤ length payload → head16 (drop i payload) ≢ none
  len_read i h = head16-ne-none (drop i payload) (omega (arith, length-drop i payload))

  -- The start and end keys of a range request are read inside every payload.
  pub range_bounds-ne-none : range_bounds payload ≢ none
  unfolding range_bounds
  range_bounds-ne-none = go (Option-cases (head16 (drop 1 payload)))
    where
      go :
          (head16 (drop 1 payload) ≡ none) ⊎ ((sl : ℕ) × (head16 (drop 1 payload) ≡ some sl))
          → range_bounds payload ≢ none
      go (inl e) = ground (arith, e, len_read 1)
      go (inr (sl, e)) = ground (arith, e, len_read (3 + sl))

  module _ (level : LevelDb) (storage : Option level.Db) where
    -- HandleDataNodeDelete reads nothing outside its payload, whatever the payload.
    pub handle_delete-ne-none : handle_delete level storage payload ≢ none
    unfolding handle_delete
    handle_delete-ne-none = ground (arith, key_len_read, val_len_read)

    -- HandleDataNodePut reads nothing outside its payload, if the sum of 7 and the two lengths that
    -- the payload announces does not wrap in 32 bits.
    pub handle_put-ne-none :
        (key_len val_len : ℕ)
        → read16 payload 1 ≡ some key_len
        → read32 payload 3 ≡ some val_len
        → 7 + key_len + val_len < 4294967296
        → handle_put level storage payload ≢ none
    unfolding handle_put
    handle_put-ne-none key_len val_len k v h = ground arith

    -- HandleDataNodePut reads past the end of every payload of at least seven bytes whose announced
    -- lengths wrap: the sum of 7 and the lengths passes 2^32, and what is left of it after wrapping
    -- is at most the payload's size.
    pub handle_put_overrun :
        (key_len val_len : ℕ)
        → 7 ≤ length payload
        → length payload < 4294967296
        → read16 payload 1 ≡ some key_len
        → read32 payload 3 ≡ some val_len
        → 4294967296 ≤ 7 + key_len + val_len
        → u32 (7 + key_len + val_len) ≤ length payload
        → handle_put level storage payload ≡ none
    unfolding handle_put
    handle_put_overrun key_len val_len lo hi k v h w = ground arith

    -- HandleDataNodeGet reads past the end of every payload of at least seven bytes that announces
    -- an empty value and a key longer than the rest of the payload.
    pub handle_get_overrun :
        (key_len : ℕ)
        → 7 ≤ length payload
        → read16 payload 1 ≡ some key_len
        → read32 payload 3 ≡ some 0
        → length payload < 7 + key_len
        → handle_get level storage payload ≡ none
    unfolding handle_get
    handle_get_overrun key_len lo k v h = ground arith
