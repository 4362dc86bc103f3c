-- ===== src/Balancer.antt =====
-- The balancer of kv/raft_node.cpp: splitting a tablet at its median key. The balancer thread is the
-- only one that writes the table, so each method runs on its own.
pub mod Cut
pub mod Split
pub mod Ids
mod Tests
use le_kv.Base.{
  ℕ, ◌+◌, ◌-◌, ◌/◌, Bool, true, false, not, ◌&&◌, ◌||◌, Option, none, some, List, [], ◌∷◌, ◌++◌,
  ◌==◌, ltb, if◌then◌else◌, length, get_elem?, set, insert_at,
}
use le_kv.Bytes.{Bytes, le_bytes, is_empty}
use le_kv.Bytes.Endian.{u64}
use le_kv.Exec.{Exec, pure, gets, ◌>>=◌, ◌>>◌}
use le_kv.Master.{Master, query_tablet_stats, save_tablets}
use le_kv.Master.Interface.{Env}
use le_kv.Routing.{Table, Tablet}
use le_kv.Storage.{Stats}

abbrev pub split_threshold : ℕ
split_threshold = 6

-- `left` and `right` of TrySplitTablet. The query wrote its count into `old_t`.
abbrev pub left_piece : Tablet → Stats → ℕ → Tablet
left_piece old st next = record old {
  id = next;
  end_key = st.median_key;
  key_count = st.key_count / 2;
}

abbrev pub right_piece : Tablet → Stats → ℕ → Tablet
right_piece old st next = record old {
  id = u64 (next + 1);
  start_key = st.median_key;
  key_count = st.key_count - st.key_count / 2;
}

-- Step 3 of TrySplitTablet, up to the save.
unfoldable pub split_table : ℕ → Tablet → Stats → Table → Table
split_table idx old st t = record {
  tablets =
      insert_at (set t.tablets idx (left_piece old st t.next_tablet_id)) (idx + 1)
        (right_piece old st t.next_tablet_id);
  next_tablet_id = u64 (u64 (t.next_tablet_id + 1) + 1);
  epoch = u64 (t.epoch + 1);
}

-- `median_key.empty() || median_key <= start || (!end.empty() && median_key >= end)`
unfoldable pub bad_median : Tablet → Bytes → Bool
bad_median old median =
    is_empty median
    || (le_bytes median old.start_key
        || (not (is_empty old.end_key) && le_bytes old.end_key median))

module _ (env : Env) where
  abbrev pub tablets_now : Exec (Master env) (List Tablet)
  tablets_now = gets (λ m. m.table.tablets)

  abbrev pub change_table : (Table → Table) → Exec (Master env) (Unit {0})
  change_table f m = some (tt, record m { table = f m.table })

  -- Step 3 of TrySplitTablet: the tablet is looked at again before the table changes.
  unfoldable pub commit_split : ℕ → Tablet → Stats → Option Tablet → Exec (Master env) Bool
  commit_split idx old st none = pure false
  commit_split idx old st (some now) =
      if not (now.id == old.id)
      then pure false
      else if ltb now.key_count split_threshold
      then pure false
      else do change_table (split_table idx old st); save_tablets env; pure true

  -- The end of step 2: what the query brought.
  unfoldable pub after_query : ℕ → Tablet → Option Stats → Exec (Master env) Bool
  after_query idx old none = pure false
  after_query idx old (some st) =
      if bad_median old st.median_key
      then pure false
      else do tablets ← tablets_now; commit_split idx old st (get_elem? tablets idx)

  -- Steps 1 and 2 of TrySplitTablet.
  unfoldable pub split_found : ℕ → Option Tablet → Exec (Master env) Bool
  split_found idx none = pure false
  split_found idx (some old) = if ltb old.key_count split_threshold then pure false else do
    resp ← query_tablet_stats env old.node_id old.start_key old.end_key
    after_query idx old resp

  -- TrySplitTablet
  unfoldable pub try_split_tablet : ℕ → Exec (Master env) Bool
  try_split_tablet idx = do tablets ← tablets_now; split_found idx (get_elem? tablets idx)
