-- ===== src/Master.antt =====
-- The master's side of kv/raft_node.cpp: its state, the requests that it sends to data nodes and
-- the file that keeps its routing table.
pub mod Interface
pub mod Keeps
pub mod Replies
pub mod Persist
pub mod Toy
mod Tests
use le_kv.Base.{
  ℕ, ◌+◌, Bool, true, false, not, ◌&&◌, ◌||◌, Option, none, some, List, [], ◌∷◌, ◌++◌, ◌==◌, ltb,
  if◌then◌else◌, length, get_elem?,
}
use le_kv.Base
use le_kv.Bytes.{Bytes}
use le_kv.Bytes.Endian.{be16, u16, u64, read16, read32, slice}
use le_kv.Exec.{Exec, pure, lift, gets, ◌>>=◌, ◌>>◌}
use le_kv.Protocol.{
  Decoded, rejected, decoded, encode_custom_request, try_decode, st_ok, op_tablet_stats,
  op_delete_range, op_scan_range,
}
use le_kv.Routing.{Table, Tablet}
use le_kv.Storage.{Stats}
use Interface.{Env}

-- The payload [op][2B][start][2B][end] of a range request, built alike in three methods.
unfoldable pub range_payload : ℕ → Bytes → Bytes → Bytes
range_payload op start stop =
    op ∷ (be16 (u16 (length start)) ++ (start ++ (be16 (u16 (length stop)) ++ stop)))

-- The tests of QueryTabletStats on the payload of a response; the inner `none` is the result false.
unfoldable pub parse_stats : Bytes → Option (Option Stats)
unfolding read16 read32 slice
parse_stats p =
    if ltb (length p) 11
    then some none
    else Base.◌>>=◌ (get_elem? p 0) λ status.
      if not (status == st_ok)
      then some none
      else Base.◌>>=◌ (read32 p 5) λ key_count. Base.◌>>=◌ (read16 p 9) λ med_len.
        if ltb (length p) (11 + med_len)
        then some none
        else Base.◌>>=◌ (slice p 11 med_len)
            λ median_key. some (some (record { key_count = key_count; median_key = median_key }))

-- `resp_payload.empty() || resp_payload[0] != ST_OK` is false.
unfoldable pub is_ok : Bytes → Bool
is_ok [] = false
is_ok (status ∷ p) = status == st_ok

-- The members of RaftNode that the master uses. The sockets and the file are the world.
pub record Master (env : Env) : Type 0 where
  pub table : Table
  pub world : env.World
  pub transfer_count : ℕ
  pub transfer_time_ms : ℕ

module _ (env : Env) where
  -- `node_clients_.find(id)` finds a client, and it is connected.
  abbrev pub connected : ℕ → Exec (Master env) Bool
  connected node = gets (λ m. env.connected m.world node)

  -- Send, then RecvFrame, on the client of a node; `none` if either fails.
  abbrev pub call : ℕ → Bytes → Exec (Master env) (Option Bytes)
  call node req m = let (r, w) = env.call m.world node req in some (r, record m { world = w })

  -- A range request to a node, up to the payload of the response. The result is none if the node is
  -- not connected, if Send or RecvFrame fails, or if TryDecode returns false.
  unfoldable pub range_request : ℕ → ℕ → Bytes → Bytes → Exec (Master env) (Option Bytes)
  unfolding range_payload
  range_request node op start stop = do
    up ← connected node
    if not up then pure none else do
      resp ← call node (encode_custom_request 1 (range_payload op start stop))
      elim resp [
        | none ↦ pure none
        | some frame ↦ do
          d ← lift (try_decode frame)
          elim d [ rejected n ↦ pure none | decoded n r p ↦ pure (some p) ]
      ]

  -- QueryTabletStats
  unfoldable pub query_tablet_stats : ℕ → Bytes → Bytes → Exec (Master env) (Option Stats)
  unfolding range_request parse_stats
  query_tablet_stats node start stop = do
    resp ← range_request node op_tablet_stats start stop
    elim resp [ none ↦ pure none | some p ↦ lift (parse_stats p) ]

  -- SendDeleteRange
  unfoldable pub send_delete_range : ℕ → Bytes → Bytes → Exec (Master env) Bool
  unfolding range_request is_ok
  send_delete_range node start stop = do
    resp ← range_request node op_delete_range start stop
    elim resp [ none ↦ pure false | some p ↦ pure (is_ok p) ]

  -- SaveTablets: what reaches the file is up to the environment, since the results of the write and
  -- the close are not tested. An exception of `dump` is not caught.
  unfoldable pub save_tablets : Exec (Master env) (Unit {0})
  save_tablets m =
      if not (env.can_open m.world)
      then some (tt, m)
      else Base.◌>>=◌ (env.dump m.table)
          λ text. some (tt, record m { world = env.replace_file m.world text })

  -- LoadTablets: true if the file is there and its text has the three fields; if the text does not,
  -- the table is reset.
  unfoldable pub load_tablets : Exec (Master env) Bool
  load_tablets m = elim (env.file m.world) [
    | none ↦ some (false, m)
    | some text ↦ elim (env.parse text) [
      | some t ↦ some (true, record m { table = t })
      | none ↦
          some (false, record m { table = record { tablets = []; next_tablet_id = 3; epoch = 1 } })
    ]
  ]
