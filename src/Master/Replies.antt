-- ===== src/Master/Replies.antt =====
-- The master's requests and the data nodes' replies fit together.
use le_kv.Base.{
  ℕ, ◌+◌, ◌<◌, some, [], ◌∷◌, ◌++◌, ◌≡◌, refl, ap, ◌∙◌, arith, length, length-append, append_assoc,
  append-nil,
}
use le_kv.Bytes.{Bytes}
use le_kv.Bytes.Endian.{be16, be32, u16, u32, read16, slice, slice_past, read16_past, read32_past}
use le_kv.Protocol.{st_ok}
use le_kv.Protocol.RoundTrip.{response_payload}
use le_kv.Storage
use le_kv.Storage.{Stats}
use le_kv.Storage.Api.{LevelDb}
use le_kv.DataNode.{range_bounds, handle_tablet_stats, tablet_stats}
use le_kv.Master.{range_payload, parse_stats}

module _ (op : ℕ) (start stop : Bytes) (hs : length start < 65536) (he : length stop < 65536) where
  range_start : slice (range_payload op start stop) 3 (length start) ≡ some start
  unfolding range_payload
  range_start =
      slice_past 3 (length start) (op ∷ be16 (u16 (length start))) start
        (be16 (u16 (length stop)) ++ stop) refl refl

  range_start_len : read16 (range_payload op start stop) 1 ≡ some (length start)
  unfolding range_payload
  range_start_len =
      read16_past 1 (u16 (length start)) (op ∷ []) (start ++ (be16 (u16 (length stop)) ++ stop))
        refl (omega arith)
      ∙ ap some (omega arith)

  range_stop_len : read16 (range_payload op start stop) (3 + length start) ≡ some (length stop)
  unfolding range_payload
  range_stop_len =
      read16_past (3 + length start) (u16 (length stop)) (op ∷ (be16 (u16 (length start)) ++ start))
        stop (omega arith) (omega arith)
      ∙ ap some (omega arith)

  range_stop : slice (range_payload op start stop) (3 + length start + 2) (length stop) ≡ some stop
  unfolding range_payload
  range_stop =
      rw (append-nil stop, append_assoc start (be16 (u16 (length stop))) stop) at
        (slice_past (3 + length start + 2) (length stop)
          (op ∷ (be16 (u16 (length start)) ++ (start ++ be16 (u16 (length stop))))) stop []
          (omega (arith, length-append start (be16 (u16 (length stop))))) refl)

  pub length-range_payload :
      length (range_payload op start stop) ≡ 1 + 2 + length start + 2 + length stop
  unfolding range_payload
  length-range_payload = omega (arith, length-append start (be16 (u16 (length stop)) ++ stop))

  -- A data node reads the start and end keys of a range request as the master wrote them, if both
  -- are shorter than 2^16 bytes.
  pub range_bounds-range_payload :
      range_bounds (range_payload op start stop) ≡ some (some (start, stop))
  unfolding range_bounds
  range_bounds-range_payload =
      ground (arith, range_start_len, range_start, range_stop_len, range_stop, length-range_payload)

-- The reply of HandleDataNodeTabletStats, as the server frames it, without its status.
abbrev stats_value : Stats → Bytes
stats_value st = be32 (u32 st.key_count) ++ (be16 (u16 (length st.median_key)) ++ st.median_key)

parse_stats-stats_value :
    (st : Stats)
    → st.key_count < 4294967296
    → length st.median_key < 65536
    → parse_stats (response_payload st_ok (stats_value st)) ≡ some (some st)
unfolding parse_stats
parse_stats-stats_value st hc hm =
    let c : u32 st.key_count ≡ st.key_count = omega arith in
    let l : u16 (length st.median_key) ≡ length st.median_key = omega arith in
    let count =
      read32_past 5 (u32 st.key_count) (st_ok ∷ be32 (length (stats_value st)))
        (be16 (u16 (length st.median_key)) ++ st.median_key) refl (omega arith) in
    let len =
      read16_past 9 (u16 (length st.median_key))
        (st_ok ∷ (be32 (length (stats_value st)) ++ be32 (u32 st.key_count))) st.median_key refl
        (omega arith) in
    let median = rw (append-nil st.median_key) at (
      slice_past 11 (length st.median_key)
        (st_ok
          ∷ (be32 (length (stats_value st))
              ++ (be32 (u32 st.key_count) ++ be16 (u16 (length st.median_key)))))
        st.median_key [] refl refl) in
    ground (arith, count, len, median, c, l)

-- The statistics that a data node computes for a range request of the master reach the master
-- unchanged through the reply that its server frames, and the node's storage stays as it is. The
-- keys are shorter than 2^16 bytes and the count is below 2^32.
pub tablet_stats_reach_master :
    (level : LevelDb) (d : level.Db) (op : ℕ) (start stop : Bytes) (st : Stats)
    → length start < 65536
    → length stop < 65536
    → Storage.range_stats level d start stop ≡ some st
    → st.key_count < 4294967296
    → length st.median_key < 65536
    → (value : Bytes) × (handle_tablet_stats level (some d) (range_payload op start stop)
        ≡ some (st_ok ∷ value, some d))
      × (parse_stats (response_payload st_ok value) ≡ some (some st))
unfolding handle_tablet_stats tablet_stats
tablet_stats_reach_master level d op start stop st hs he e hc hm = (
  stats_value st,
  ground (arith, range_bounds-range_payload op start stop hs he, e),
  parse_stats-stats_value st hc hm,
)
