-- ===== src/Balancer/Cut.antt =====
-- Replacing a tablet by two that share its interval keeps the partition and every key's node.
use le_kv.Base.{
  ℕ, zero, suc, true, false, ◌||◌, Option, none, some, List, [], ◌∷◌, ◌≡◌, refl, arith, get_elem?,
  set, insert_at,
}
use le_kv.Bytes.{Bytes, lt_bytes, is_empty}
use le_kv.Bytes.Order.{le_bytes_trans, lt_bytes_asymm, lt_bytes_trans}
use le_kv.Routing.{Tablet}
use le_kv.Routing.Partition.{CoversFrom, contains, owner}
use le_kv.Balancer.{bad_median, left_piece, right_piece}
use le_kv.Storage.{Stats}

-- The table with the tablet at `idx` replaced by two.
abbrev pub replaced : List Tablet → ℕ → Tablet → Tablet → List Tablet
replaced ts idx l r = insert_at (set ts idx l) (suc idx) r

-- `l` and `r` cut the interval of `old` at a key inside it, and stay on its node.
pub record IsCut (old l r : Tablet) : Type 0 where
  pub start : l.start_key ≡ old.start_key
  pub stop : r.end_key ≡ old.end_key
  pub meet : r.start_key ≡ l.end_key
  pub above : lt_bytes old.start_key l.end_key ≡ true
  pub below : is_empty old.end_key || lt_bytes l.end_key old.end_key ≡ true
  pub left_node : l.node_id ≡ old.node_id
  pub right_node : r.node_id ≡ old.node_id

-- A median that passes the tests of TrySplitTablet cuts its tablet.
pub pieces-IsCut :
    (old : Tablet) (st : Stats) (next : ℕ)
    → bad_median old st.median_key ≡ false
    → IsCut old (left_piece old st next) (right_piece old st next)
unfolding bad_median
pieces-IsCut old st next h = record {
  start = refl;
  stop = refl;
  meet = refl;
  above = ground arith;
  below = ground arith;
  left_node = refl;
  right_node = refl;
}

is_empty_of_lt : (a b : Bytes) → lt_bytes a b ≡ true → is_empty b ≡ false
unfolding lt_bytes
is_empty_of_lt a [] h = cc
is_empty_of_lt a (x ∷ b) h = refl

is_empty-nil : (m : Bytes) → is_empty m ≡ true → m ≡ []
is_empty-nil [] h = refl
is_empty-nil (x ∷ m) h = cc

CoversFrom-cons :
    (from : Bytes) (t : Tablet) (ts : List Tablet)
    → t.start_key ≡ from
    → lt_bytes from t.end_key ≡ true
    → CoversFrom t.end_key ts
    → CoversFrom from (t ∷ ts)
CoversFrom-cons from t [] s h v = absurd v
CoversFrom-cons from t (u ∷ rest) s h v = (s, h, v)

-- The node of a route.
abbrev pub node_of : Option Tablet → Option ℕ
node_of none = none
node_of (some t) = some t.node_id

module _ (old l r : Tablet) (c : IsCut old l r) where
  -- A key is in the old tablet if it is in one of the two.
  contains-cut : (key : Bytes) → contains old key ≡ contains l key || contains r key
  contains-cut key = ground (
    arith,
    c.start,
    c.stop,
    c.meet,
    c.above,
    c.below,
    is_empty_of_lt old.start_key l.end_key c.above,
    lt_bytes_trans key l.end_key old.end_key,
    le_bytes_trans old.start_key l.end_key key,
    lt_bytes_asymm old.start_key l.end_key,
  )

  -- The cover stays a cover.
  pub CoversFrom-replaced :
      (from : Bytes) (ts : List Tablet) (idx : ℕ)
      → get_elem? ts idx ≡ some old
      → CoversFrom from ts
      → CoversFrom from (replaced ts idx l r)
  CoversFrom-replaced from [] idx g v = absurd v
  CoversFrom-replaced from (t ∷ []) zero g v =
      let same : t ≡ old = cc in
      (
        ground (arith, c.start),
        ground (arith, c.above),
        (ground (arith, c.meet), ground (arith, c.stop)),
      )
  CoversFrom-replaced from (t ∷ []) (suc idx) g v = cc
  CoversFrom-replaced from (t ∷ u ∷ rest) zero g v =
      let same : t ≡ old = cc in
      let stop : r.end_key ≡ t.end_key = ground (arith, c.stop) in
      (
        ground (arith, c.start),
        ground (arith, c.above),
        (c.meet, ground (arith, c.below, stop, is_empty_of_lt from t.end_key v.1), rw stop v.2),
      )
  CoversFrom-replaced from (t ∷ u ∷ rest) (suc idx) g v =
      CoversFrom-cons from t (replaced (u ∷ rest) idx l r) v.0 v.1
        (CoversFrom-replaced t.end_key (u ∷ rest) idx g v.2)

  -- Every key keeps its node.
  pub owner-replaced :
      (key : Bytes) (ts : List Tablet) (idx : ℕ)
      → get_elem? ts idx ≡ some old
      → node_of (owner key (replaced ts idx l r)) ≡ node_of (owner key ts)
  unfolding owner
  owner-replaced key [] idx g = cc
  owner-replaced key (t ∷ rest) zero g = ground (arith, contains-cut key, c.left_node, c.right_node)
  owner-replaced key (t ∷ rest) (suc idx) g = ground (arith, owner-replaced key rest idx g)
