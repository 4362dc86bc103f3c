-- ===== src/Migration.antt =====
-- Moving tablets in kv/raft_node.cpp: SyncAllTabletStats, ScanAndTransferData, MigrateTablet and
-- DoLoadBalance.
pub mod Replace
pub mod Tables
pub mod Balance
pub mod Load
pub mod Choice
mod Tests
use le_kv.Base.{
  ℕ, zero, suc, ◌+◌, ◌-◌, Bool, true, false, not, ◌&&◌, ◌||◌, Option, none, some, List, [], ◌∷◌,
  ◌==◌, ltb, if◌then◌else◌, length, get_elem?, set,
}
use le_kv.Base
use le_kv.Bytes.{Bytes}
use le_kv.Bytes.Endian.{u32, u64, read16, read32, slice}
use le_kv.Exec.{Exec, pure, lift, gets, ◌>>=◌, ◌>>◌}
use le_kv.Protocol.{op_put, op_scan_range, encode_request}
use le_kv.Master.{
  Master, connected, call, range_request, is_ok, query_tablet_stats, send_delete_range,
  save_tablets,
}
use le_kv.Master.Interface.{Env}
use le_kv.Routing.{Table, Tablet}
use le_kv.Storage.{Stats}
use le_kv.Balancer.{tablets_now, change_table}

-- One round of the loop of ScanAndTransferData over the scan's payload, up to the PUT: a key, a value
-- and the position behind them; the inner `none` is a break at an entry that is cut short.
unfoldable pub next_entry : Bytes → ℕ → Option (Option (Bytes × Bytes × ℕ))
next_entry p pos =
    if ltb (length p) (pos + 2)
    then some none
    else Base.◌>>=◌ (read16 p pos) λ key_len.
      if ltb (length p) (pos + 2 + key_len)
      then some none
      else Base.◌>>=◌ (slice p (pos + 2) key_len) λ key.
        if ltb (length p) (pos + 2 + key_len + 4)
        then some none
        else Base.◌>>=◌ (read32 p (pos + 2 + key_len)) λ vlen.
          if ltb (length p) (pos + 2 + key_len + 4 + vlen)
          then some none
          else Base.◌>>=◌ (slice p (pos + 2 + key_len + 4) vlen)
              λ value. some (some (key, value, pos + 2 + key_len + 4 + vlen))

-- Whether a call was answered.
abbrev pub answered : Option Bytes → Bool
answered none = false
answered (some r) = true

-- The header of the scan's payload: the count of entries; the inner `none` is a result false.
unfoldable pub scan_count : Bytes → Option (Option ℕ)
scan_count p =
    if not (is_ok p)
    then some none
    else if ltb (length p) 5
    then some none
    else Base.◌>>=◌ (read32 p 1) λ val_len.
      if ltb (length p) (u32 (5 + val_len))
      then some none
      else if ltb (length p) (5 + 4)
      then some none
      else Base.◌>>=◌ (read32 p 5) λ count. some (some count)

-- The loads of the nodes as a `std::map`: in the order of the node ids.
unfoldable pub add_load : ℕ → ℕ → List (ℕ × ℕ) → List (ℕ × ℕ)
add_load node count [] = (node, u64 count) ∷ []
add_load node count ((n, load) ∷ rest) =
    if ltb node n
    then (node, u64 count) ∷ (n, load) ∷ rest
    else if node == n
    then (n, u64 (load + count)) ∷ rest
    else (n, load) ∷ add_load node count rest

-- `for (const auto& t : tablets_) node_load[t.node_id] += t.key_count;`
unfoldable pub node_loads : List Tablet → List (ℕ × ℕ) → List (ℕ × ℕ)
unfolding add_load
node_loads [] loads = loads
node_loads (t ∷ ts) loads = node_loads ts (add_load t.node_id t.key_count loads)

-- `std::max_element` by load: the first of the largest.
unfoldable pub max_load : ℕ × ℕ → List (ℕ × ℕ) → ℕ × ℕ
max_load best [] = best
max_load best (x ∷ rest) = max_load (if ltb best.1 x.1 then x else best) rest

-- `std::min_element` by load: the first of the smallest.
unfoldable pub min_load : ℕ × ℕ → List (ℕ × ℕ) → ℕ × ℕ
min_load best [] = best
min_load best (x ∷ rest) = min_load (if ltb x.1 best.1 then x else best) rest

-- The loop that looks for the largest tablet of a node: the best index and count so far.
unfoldable pub largest_on : ℕ → List Tablet → ℕ → ℕ × ℕ → ℕ × ℕ
largest_on node [] i best = best
largest_on node (t ∷ ts) i best =
    largest_on node ts (i + 1)
      (if t.node_id == node && ltb best.1 t.key_count then (i, t.key_count) else best)

abbrev pub balance_diff_threshold : ℕ
balance_diff_threshold = 7

-- The choice of DoLoadBalance, up to the migration: the index of a tablet and the node to move it
-- to, or `none` for the result false.
unfoldable pub choose_move : List Tablet → Option (ℕ × ℕ)
unfolding node_loads max_load min_load largest_on
choose_move ts = if ltb (length ts) 2 then none else elim (node_loads ts []) [
  | [] ↦ none
  | first ∷ [] ↦ none
  | first ∷ second ∷ rest ↦
      let most = max_load first (second ∷ rest) in
      let least = min_load first (second ∷ rest) in
      let diff = if ltb least.1 most.1 then most.1 - least.1 else 0 in
      if ltb diff balance_diff_threshold
      then none
      else let target = largest_on most.0 ts 0 (length ts, 0) in
        if not (ltb target.0 (length ts)) then none else some (target.0, least.0)
]

-- The table after a migration.
unfoldable pub moved_table : ℕ → Tablet → ℕ → Table → Table
moved_table idx t dst table = record table {
  tablets = set table.tablets idx (record t { node_id = dst });
  epoch = u64 (table.epoch + 1);
}

module _ (env : Env) where
  -- The rest of a round of ScanAndTransferData: the PUT of an entry, and the rounds after it.
  unfoldable pub send_entry :
      ℕ → ℕ → ℕ → (ℕ → ℕ → Exec (Master env) ℕ) → Option (Bytes × Bytes × ℕ) → Exec (Master env) ℕ
  send_entry dst i transferred next none = pure transferred
  send_entry dst i transferred next (some (key, value, pos)) = do
    resp ← call env dst (encode_request (u32 (1 + i + 1)) op_put key value)
    next pos (if answered resp then u32 (transferred + 1) else transferred)

  -- The loop of ScanAndTransferData: rounds left, `i`, `pos` and `transferred`.
  unfoldable pub transfer_loop : ℕ → Bytes → ℕ → ℕ → ℕ → ℕ → Exec (Master env) ℕ
  unfolding send_entry
  transfer_loop dst p zero i pos transferred = pure transferred
  transfer_loop dst p (suc left) i pos transferred = do
    entry ← lift (next_entry p pos)
    send_entry dst i transferred (transfer_loop dst p left (i + 1)) entry

  -- The loop of ScanAndTransferData and its result, for the count of the payload's header.
  unfoldable pub transfer_entries : ℕ → Bytes → Option ℕ → Exec (Master env) Bool
  transfer_entries dst p none = pure false
  transfer_entries dst p (some count) = do
    transferred ← transfer_loop dst p count 0 9 0
    pure (transferred == count)

  -- The rest of ScanAndTransferData, from the response payload on.
  unfoldable pub transfer_payload : ℕ → Option Bytes → Exec (Master env) Bool
  transfer_payload dst none = pure false
  transfer_payload dst (some p) = do header ← lift (scan_count p); transfer_entries dst p header

  -- ScanAndTransferData
  unfoldable pub scan_and_transfer_data : ℕ → ℕ → Bytes → Bytes → Exec (Master env) Bool
  scan_and_transfer_data src dst start stop = do
    src_up ← connected env src
    dst_up ← connected env dst
    if not (src_up && dst_up)
        then pure false
        else do resp ← range_request env src op_scan_range start stop; transfer_payload dst resp

  -- The update of the routing table in MigrateTablet.
  unfoldable pub commit_move : ℕ → Tablet → ℕ → Option Tablet → Exec (Master env) (Unit {0})
  unfolding moved_table
  commit_move idx t dst none = pure tt
  commit_move idx t dst (some now) =
      if now.id == t.id
      then (do change_table env (moved_table idx now dst); save_tablets env)
      else pure tt

  -- MigrateTablet, after the lookup of its tablet.
  unfoldable pub migrate_found : ℕ → ℕ → Option Tablet → Exec (Master env) Bool
  migrate_found idx dst none = pure false
  migrate_found idx dst (some t) = if t.node_id == dst then pure false else do
    copied ← scan_and_transfer_data t.node_id dst t.start_key t.end_key
    if not copied then pure false else do
      now ← tablets_now env
      commit_move idx t dst (get_elem? now idx)
      deleted ← send_delete_range env t.node_id t.start_key t.end_key
      pure true

  -- MigrateTablet
  unfoldable pub migrate_tablet : ℕ → ℕ → Exec (Master env) Bool
  migrate_tablet idx dst = do
    tablets ← tablets_now env
    migrate_found idx dst (get_elem? tablets idx)

  -- The end of DoLoadBalance: the statistics of migrations grow, whatever its result.
  unfoldable pub count_move : ℕ → env.World → Exec (Master env) (Unit {0})
  count_move idx before m = Base.◌>>=◌ (get_elem? m.table.tablets idx) λ t. some (
    tt,
    record m {
      transfer_count = u64 (m.transfer_count + t.key_count);
      transfer_time_ms = u64 (m.transfer_time_ms + env.elapsed_ms before m.world);
    },
  )

  -- DoLoadBalance, after its choice.
  unfoldable pub move_chosen : Option (ℕ × ℕ) → Exec (Master env) Bool
  move_chosen none = pure false
  move_chosen (some (idx, dst)) = do
    before ← gets (λ m. m.world)
    good ← migrate_tablet idx dst
    count_move idx before
    pure good

  -- DoLoadBalance
  unfoldable pub do_load_balance : Exec (Master env) Bool
  unfolding choose_move
  do_load_balance = do ts ← tablets_now env; move_chosen (choose_move ts)

  -- The assignment of SyncAllTabletStats to a tablet that it could query.
  unfoldable pub store_count : ℕ → Tablet → Option Stats → Exec (Master env) (Unit {0})
  store_count i t none = pure tt
  store_count i t (some st) = change_table env λ table. record table {
    tablets = set table.tablets i (record t { key_count = st.key_count });
  }

  -- The loop of SyncAllTabletStats: indices left and the index.
  unfoldable pub sync_from : ℕ → ℕ → Exec (Master env) (Unit {0})
  unfolding store_count
  sync_from zero i = pure tt
  sync_from (suc left) i = do
    ts ← tablets_now env
    t ← lift (get_elem? ts i)
    resp ← query_tablet_stats env t.node_id t.start_key t.end_key
    store_count i t resp
    sync_from left (i + 1)

  -- SyncAllTabletStats
  unfoldable pub sync_all_tablet_stats : Exec (Master env) (Unit {0})
  unfolding sync_from
  sync_all_tablet_stats = do ts ← tablets_now env; sync_from (length ts) 0
