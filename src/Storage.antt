-- ===== src/Storage.antt =====
-- storage/storage_engine.h and storage/storage_engine.cpp: the storage engine over LevelDB.
-- LevelDB is vendored: its calls and their documented behaviour are the interface `LevelDb`.
pub mod Api
pub mod Entries
pub mod Range
pub mod Median
pub mod Delete
pub mod Sorted
mod Tests
use le_kv.Base.{
  ℕ, ◌/◌, Bool, true, false, not, ◌&&◌, ◌||◌, Option, none, some, List, [], ◌∷◌, ◌++◌, ◌==◌,
  if◌then◌else◌, length, get_elem?, ◌>>=◌, ◌≡◌,
}
use le_kv.Bytes.{Bytes, lt_bytes, le_bytes, is_empty}
use Api.{LevelDb, Entry}

-- The loop of RangeQuery over what the iterator yields. The callback gets the state that it
-- captures, and returns whether to go on.
unfoldable pub query_loop {ℓ} :
    {S : Type ℓ} → Bytes → (S → Bytes → Bytes → Bool × S) → List Entry → S → S
query_loop stop cb [] s = s
query_loop stop cb ((k, v) ∷ rest) s =
    let (go, s') = cb s k v in
    let more = query_loop stop cb rest s' in
    if not (is_empty stop) && le_bytes stop k then s else if not go then s' else more

-- The callback of RangeStats: `keys.push_back(k); return true;`
abbrev pub push_key : List Bytes → Bytes → Bytes → Bool × List Bytes
push_key keys k v = (true, keys ++ (k ∷ []))

-- The two outputs of RangeStats; its result is always true.
pub record Stats : Type 0 where
  pub key_count : ℕ
  pub median_key : Bytes

-- The rest of RangeStats, after the keys are collected.
unfoldable pub stats_of_keys : List Bytes → Option Stats
stats_of_keys keys =
    let key_count = length keys in
    if key_count == 0 then some (record { key_count = 0; median_key = [] }) else do
      median ← get_elem? keys (key_count / 2)
      some (record { key_count = key_count; median_key = median })

-- The first pass of DeleteRange: the keys up to `stop`.
unfoldable pub collect_keys : Bytes → List Entry → List Bytes → List Bytes
collect_keys stop [] keys = keys
collect_keys stop ((k, v) ∷ rest) keys =
    let more = collect_keys stop rest (keys ++ (k ∷ [])) in
    if not (is_empty stop) && le_bytes stop k then keys else more

module _ (level : LevelDb) where
  open level use {Db}

  -- StorageEngine::Put; true if LevelDB's status is ok.
  unfoldable pub put : Db → Bytes → Bytes → Bool × Db
  put d key value = level.put d key value

  -- StorageEngine::Get; any status but ok is `std::nullopt`.
  unfoldable pub get : Db → Bytes → Option Bytes
  get d key = level.get d key

  -- StorageEngine::Delete
  unfoldable pub delete : Db → Bytes → Bool × Db
  delete d key = level.delete d key

  -- StorageEngine::RangeQuery
  unfoldable pub range_query {ℓ} :
      {S : Type ℓ} → Db → Bytes → Bytes → (S → Bytes → Bytes → Bool × S) → S → S
  range_query d start stop cb s = query_loop stop cb (level.seek d start) s

  -- StorageEngine::RangeStats
  unfoldable pub range_stats : Db → Bytes → Bytes → Option Stats
  range_stats d start stop = stats_of_keys (range_query d start stop push_key [])

  -- The second pass of DeleteRange; the statuses of the deletions are dropped.
  unfoldable pub delete_all : List Bytes → Db → Db
  delete_all [] d = d
  delete_all (k ∷ keys) d = delete_all keys (level.delete d k).1

  -- StorageEngine::DeleteRange
  unfoldable pub delete_range : Db → Bytes → Bytes → Bool × Db
  delete_range d start stop = (true, delete_all (collect_keys stop (level.seek d start) []) d)
