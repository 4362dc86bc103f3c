-- ===== src/Balancer/Split.antt =====
-- TrySplitTablet keeps the routing table sound, on every branch.
use le_kv.Base.{
  ℕ, suc, ◌+◌, ◌<◌, ◌≤◌, Bool, true, false, not, Option, none, some, [], ◌≡◌, refl, ap, ◌∙◌, arith,
  get_elem?, set, insert_at, inl, inr, ltb, ◌==◌,
}
use le_kv.Bytes.{Bytes}
use le_kv.Exec.{Exec, pure, gets, if-eq-some, ◌>>=◌, ◌>>◌}
use le_kv.Exec
use le_kv.Master.{Master, query_tablet_stats, save_tablets}
use le_kv.Master.Interface.{Env}
use le_kv.Routing.{Table, Tablet}
use le_kv.Routing.Partition.{IsPartition, owner}
use le_kv.Storage.{Stats}
use le_kv.Balancer.{
  split_table, bad_median, left_piece, right_piece, commit_split, after_query, split_found,
  try_split_tablet, change_table, split_threshold,
}
use le_kv.Balancer.Cut.{replaced, pieces-IsCut, CoversFrom-replaced, owner-replaced, node_of}
use le_kv.Balancer.Ids.{IdsBelow, IdsDistinct, IdsBelow-replaced, IdsDistinct-replaced}

-- The tablets cut the key space, and their ids are distinct and below the next id.
pub record IsTable (t : Table) : Type 0 where
  pub partition : IsPartition t.tablets
  pub below : IdsBelow t.next_tablet_id t.tablets
  pub distinct : IdsDistinct t.tablets

-- The node that a table sends a key to.
abbrev pub node_for : Bytes → Table → Option ℕ
node_for key t = node_of (owner key t.tablets)

-- The next ids do not wrap in 64 bits.
abbrev pub HasIds : Table → Type 0
HasIds t = t.next_tablet_id + 2 < 18446744073709551616

module _ (idx : ℕ) (old : Tablet) (st : Stats) (t : Table) (g : get_elem? t.tablets idx ≡ some old)
    (good : bad_median old st.median_key ≡ false) where
  tablets-split_table :
      (split_table idx old st t).tablets
      ≡ replaced t.tablets idx
          (left_piece old st t.next_tablet_id)
          (right_piece old st t.next_tablet_id)
  unfolding split_table
  tablets-split_table =
      ap
        (λ (i : ℕ).
          insert_at (set t.tablets idx (left_piece old st t.next_tablet_id)) i
            (right_piece old st t.next_tablet_id))
        plus_one
    where
      plus_one : idx + 1 ≡ suc idx
      plus_one = omega arith

  pub next-split_table : HasIds t → (split_table idx old st t).next_tablet_id ≡ t.next_tablet_id + 2
  unfolding split_table
  next-split_table h = omega arith

  split_table-IsTable : HasIds t → IsTable t → IsTable (split_table idx old st t)
  split_table-IsTable h v = record {
    partition = rw tablets-split_table (
        CoversFrom-replaced old (left_piece old st t.next_tablet_id)
          (right_piece old st t.next_tablet_id) (pieces-IsCut old st t.next_tablet_id good) []
          t.tablets idx g v.partition);
    below =
        rw (tablets-split_table, next-split_table h)
          (IdsBelow-replaced (left_piece old st t.next_tablet_id)
            (right_piece old st t.next_tablet_id) t.next_tablet_id (t.next_tablet_id + 2) t.tablets
            idx (omega arith) (omega arith) (omega arith) v.below);
    distinct = rw tablets-split_table (
        IdsDistinct-replaced (left_piece old st t.next_tablet_id)
          (right_piece old st t.next_tablet_id) t.next_tablet_id t.tablets idx (omega arith)
          (omega arith) (λ e. omega arith) v.below v.distinct);
  }

  node_for-split_table : (key : Bytes) → node_for key (split_table idx old st t) ≡ node_for key t
  node_for-split_table key = rw tablets-split_table (
      owner-replaced old (left_piece old st t.next_tablet_id) (right_piece old st t.next_tablet_id)
        (pieces-IsCut old st t.next_tablet_id good) key t.tablets idx g)

module _ (env : Env) where
  table-query :
      (node : ℕ) (start stop : Bytes) (m m' : Master env) (r : Option Stats)
      → query_tablet_stats env node start stop m ≡ some (r, m')
      → m'.table ≡ m.table
  unfolding query_tablet_stats
  table-query node start stop m m' r e = ground arith

  table-save : (m m' : Master env) → save_tablets env m ≡ some (tt, m') → m'.table ≡ m.table
  unfolding save_tablets
  table-save m m' e = ground arith

  -- The two ways in which TrySplitTablet returns.
  abbrev pub DidSplit : ℕ → Bool → Table → Table → Type 0
  DidSplit idx false t t' = t' ≡ t
  DidSplit idx true t t' =
      (old : Tablet) × (st : Stats) × (get_elem? t.tablets idx ≡ some old)
      × (split_threshold ≤ old.key_count)
      × (bad_median old st.median_key ≡ false)
      × (t' ≡ split_table idx old st t)

  -- An early return of false.
  refused :
      (idx : ℕ) (m m' : Master env) (b : Bool)
      → pure {A = Bool} false m ≡ some (b, m')
      → DidSplit idx b m.table m'.table
  refused idx m m' false e = ground arith
  refused idx m m' true e = cc

  committed :
      (idx : ℕ) (old : Tablet) (st : Stats) (m m' : Master env) (b : Bool)
      → (do change_table env (split_table idx old st); save_tablets env; pure true) m ≡ some (b, m')
      → (b ≡ true) × (m'.table ≡ split_table idx old st m.table)
  committed idx old st m m' b e =
      let (_u, m1, s, rest) =
        Exec.>>=-eq-some (save_tablets env) (λ _. pure true)
          (record m { table = split_table idx old st m.table }) m' b e in
      (cc, cc (table-save (record m { table = split_table idx old st m.table }) m1 s))

  commit_split-DidSplit :
      (idx : ℕ) (old : Tablet) (st : Stats) (c : Option Tablet) (m m' : Master env) (b : Bool)
      → get_elem? m.table.tablets idx ≡ some old
      → split_threshold ≤ old.key_count
      → bad_median old st.median_key ≡ false
      → commit_split env idx old st c m ≡ some (b, m')
      → DidSplit idx b m.table m'.table
  unfolding commit_split
  commit_split-DidSplit idx old st none m m' b g full good e = refused idx m m' b e
  commit_split-DidSplit idx old st (some now) m m' b g full good e =
      elim (if-eq-some (not (now.id == old.id)) (pure false) _ m (b, m') e) [
        | inl (_o, r) ↦ refused idx m m' b r
        | inr (_s, r) ↦
            elim (if-eq-some (ltb now.key_count split_threshold) (pure false) _ m (b, m') r) [
              | inl (_l, r') ↦ refused idx m m' b r'
              | inr (_f, r') ↦
                  let (t, k) = committed idx old st m m' b r' in rw t (old, st, g, full, good, k)
            ]
      ]

  after_query-DidSplit :
      (idx : ℕ) (old : Tablet) (r : Option Stats) (m m' : Master env) (b : Bool)
      → get_elem? m.table.tablets idx ≡ some old
      → split_threshold ≤ old.key_count
      → after_query env idx old r m ≡ some (b, m')
      → DidSplit idx b m.table m'.table
  unfolding after_query
  after_query-DidSplit idx old none m m' b g full e = refused idx m m' b e
  after_query-DidSplit idx old (some st) m m' b g full e =
      elim (if-eq-some (bad_median old st.median_key) (pure false) _ m (b, m') e) [
        | inl (bad, r) ↦ refused idx m m' b r
        | inr (good, r) ↦
            commit_split-DidSplit idx old st (get_elem? m.table.tablets idx) m m' b g full good r
      ]

  split_found-DidSplit :
      (idx : ℕ) (found : Option Tablet) (m m' : Master env) (b : Bool)
      → get_elem? m.table.tablets idx ≡ found
      → split_found env idx found m ≡ some (b, m')
      → DidSplit idx b m.table m'.table
  unfolding split_found
  split_found-DidSplit idx none m m' b g e = refused idx m m' b e
  split_found-DidSplit idx (some old) m m' b g e =
      elim (if-eq-some (ltb old.key_count split_threshold) (pure false) _ m (b, m') e) [
        | inl (low, r) ↦ refused idx m m' b r
        | inr (full, r) ↦
            let (resp, m1, q, rest) =
              Exec.>>=-eq-some (query_tablet_stats env old.node_id old.start_key old.end_key)
                (after_query env idx old) m m' b r in
            let same : m1.table ≡ m.table =
              table-query old.node_id old.start_key old.end_key m m1 resp q in
            rw same at (after_query-DidSplit idx old resp m1 m' b (rw same g) (ground arith) rest)
      ]

  -- TrySplitTablet returns false with the table as it was, or true with the table at `idx` split at
  -- a median inside its interval, after the tablet had reached the threshold.
  pub try_split_tablet-DidSplit :
      (idx : ℕ) (m m' : Master env) (b : Bool)
      → try_split_tablet env idx m ≡ some (b, m')
      → DidSplit idx b m.table m'.table
  unfolding try_split_tablet
  try_split_tablet-DidSplit idx m m' b e =
      split_found-DidSplit idx (get_elem? m.table.tablets idx) m m' b refl e

  DidSplit-sound :
      (idx : ℕ) (b : Bool) (t t' : Table)
      → DidSplit idx b t t'
      → HasIds t
      → IsTable t
      → IsTable t' × ((key : Bytes) → node_for key t' ≡ node_for key t)
  DidSplit-sound idx false t t' s h v = (rw s v, λ key. ap (node_for key) s)
  DidSplit-sound idx true t t' (old, st, g, full, good, s) h v = (
    rw s (split_table-IsTable idx old st t g good h v),
    λ key. ap (node_for key) s ∙ node_for-split_table idx old st t g good key,
  )

  -- Whatever TrySplitTablet returns, it keeps the routing table sound, if the next ids do not wrap:
  -- the tablets still cut the key space, with distinct ids below the next id, and every key is still
  -- sent to the node it was sent to before.
  pub try_split_tablet-IsTable :
      (idx : ℕ) (m m' : Master env) (b : Bool)
      → IsTable m.table
      → HasIds m.table
      → try_split_tablet env idx m ≡ some (b, m')
      → IsTable m'.table × ((key : Bytes) → node_for key m'.table ≡ node_for key m.table)
  try_split_tablet-IsTable idx m m' b v h e =
      DidSplit-sound idx b m.table m'.table (try_split_tablet-DidSplit idx m m' b e) h v
