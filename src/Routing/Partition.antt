-- ===== src/Routing/Partition.antt =====
-- Tables that cut the whole key space into adjacent intervals, and the owner of a key by a plain
-- scan of the table.
use le_kv.Base.{
  ℕ, zero, suc, ◌<◌, Bool, true, false, Option, none, some, List, [], ◌∷◌, ◌≡◌, refl, if◌then◌else◌,
  arith, length, get_elem?,
}
use le_kv.Bytes.{Bytes, lt_bytes, is_empty, in_range}
use le_kv.Bytes.Order.{lt_bytes_irrefl, le_bytes_trans, lt_le_trans, lt_bytes_asymm}
use le_kv.Routing.{Tablet}
use le_kv.Routing.Search.{IsOrdered, Below, Above}

-- The tablets, in order, cover the keys from `from` on: each starts where the one before it ends,
-- none is empty, and the last is open.
abbrev pub CoversFrom : Bytes → List Tablet → Type 0
CoversFrom from [] = ⊥
CoversFrom from (t ∷ []) = (t.start_key ≡ from) × (t.end_key ≡ [])
CoversFrom from (t ∷ u ∷ rest) =
    (t.start_key ≡ from) × (lt_bytes from t.end_key ≡ true) × CoversFrom t.end_key (u ∷ rest)

-- The tablets cut the key space into adjacent intervals.
abbrev pub IsPartition : List Tablet → Type 0
IsPartition tablets = CoversFrom [] tablets

abbrev pub contains : Tablet → Bytes → Bool
contains t key = in_range t.start_key t.end_key key

-- The first tablet that contains the key.
unfoldable pub owner : Bytes → List Tablet → Option Tablet
owner key [] = none
owner key (t ∷ rest) = if contains t key then some t else owner key rest

-- The tablets of a cover start at its start or later.
pub CoversFrom-start :
    (from : Bytes) (ts : List Tablet) (i : ℕ) (t : Tablet)
    → CoversFrom from ts
    → get_elem? ts i ≡ some t
    → lt_bytes t.start_key from ≡ false
CoversFrom-start from [] i t c e = cc
CoversFrom-start from (u ∷ []) zero t c e = ground (arith, lt_bytes_irrefl from)
CoversFrom-start from (u ∷ []) (suc i) t c e = cc
CoversFrom-start from (u ∷ v ∷ rest) zero t c e = ground (arith, lt_bytes_irrefl from)
CoversFrom-start from (u ∷ v ∷ rest) (suc i) t c e =
    le_bytes_trans from u.end_key t.start_key (lt_bytes_asymm from u.end_key c.1)
      (CoversFrom-start u.end_key (v ∷ rest) i t c.2 e)

pub CoversFrom-head :
    (from : Bytes) (t : Tablet) (rest : List Tablet)
    → CoversFrom from (t ∷ rest)
    → t.start_key ≡ from
CoversFrom-head from t [] c = c.0
CoversFrom-head from t (u ∷ rest) c = c.0

-- The starts of a cover go up.
pub CoversFrom-IsOrdered :
    (from : Bytes) (ts : List Tablet) → CoversFrom from ts → IsOrdered (λ t. t.start_key) ts
CoversFrom-IsOrdered from [] c i j a b h p q = absurd c
CoversFrom-IsOrdered from (t ∷ rest) c zero j a b h p q =
    ground (arith, CoversFrom-head from t rest c, CoversFrom-start from (t ∷ rest) j b c q)
CoversFrom-IsOrdered from (t ∷ []) c (suc i) j a b h p q = cc
CoversFrom-IsOrdered from (t ∷ u ∷ rest) c (suc i) zero a b h p q = absurd (omega arith)
CoversFrom-IsOrdered from (t ∷ u ∷ rest) c (suc i) (suc j) a b h p q =
    CoversFrom-IsOrdered t.end_key (u ∷ rest) c.2 i j a b (omega arith) p q

-- A key at or above the start of a cover has a tablet that starts at or below it.
pub splits-pos :
    (from : Bytes) (ts : List Tablet) (key : Bytes)
    → CoversFrom from ts
    → lt_bytes key from ≡ false
    → ¬ Above (λ t. t.start_key) ts key 0
splits-pos from [] key c h hi = c
splits-pos from (t ∷ rest) key c h hi =
    ground (arith, hi 0 t (omega arith) refl, CoversFrom-head from t rest c)

is_empty_of_lt : (a b : Bytes) → lt_bytes a b ≡ true → is_empty b ≡ false
unfolding lt_bytes
is_empty_of_lt a [] h = cc
is_empty_of_lt a (x ∷ b) h = refl

-- Where the starts pass the key, the tablet before is the owner of the key, and contains it.
pub splits-owner :
    (from : Bytes) (ts : List Tablet) (key : Bytes) (m : ℕ)
    → CoversFrom from ts
    → lt_bytes key from ≡ false
    → Below (λ t. t.start_key) ts key (suc m)
    → Above (λ t. t.start_key) ts key (suc m)
    → m < length ts
    → (t : Tablet) × (get_elem? ts m ≡ some t) × (owner key ts ≡ some t) × (contains t key ≡ true)
unfolding owner
splits-owner from [] key m c h lo hi b = absurd c
splits-owner from (t ∷ []) key zero c h lo hi b = (t, refl, ground arith, ground arith)
splits-owner from (t ∷ []) key (suc m) c h lo hi b = absurd (omega arith)
splits-owner from (t ∷ u ∷ rest) key zero c h lo hi b =
    let below = hi 1 u (omega arith) refl in
    let head = CoversFrom-head t.end_key u rest c.2 in (t, refl, ground arith, ground arith)
splits-owner from (t ∷ u ∷ rest) key (suc m) c h lo hi b =
    let above = lo 1 u (omega arith) refl in
    let head = CoversFrom-head t.end_key u rest c.2 in
    let past : lt_bytes key t.end_key ≡ false = ground arith in
    let (s, g, o, k) =
      splits-owner t.end_key (u ∷ rest) key m c.2 past (λ i a p q. lo (suc i) a (omega arith) q)
        (λ i a p q. hi (suc i) a (omega arith) q) (omega arith) in
    (s, g, ground (arith, o, is_empty_of_lt from t.end_key c.1), k)

-- No two tablets of a cover contain the same key.
pub CoversFrom-disjoint :
    (from : Bytes) (ts : List Tablet) (key : Bytes) (i j : ℕ) (a b : Tablet)
    → CoversFrom from ts
    → i < j
    → get_elem? ts i ≡ some a
    → get_elem? ts j ≡ some b
    → contains a key ≡ true
    → contains b key ≡ false
CoversFrom-disjoint from [] key i j a b c h p q k = absurd c
CoversFrom-disjoint from (t ∷ rest) key i zero a b c h p q k = absurd (omega arith)
CoversFrom-disjoint from (t ∷ []) key i (suc j) a b c h p q k = cc
CoversFrom-disjoint from (t ∷ u ∷ rest) key zero (suc j) a b c h p q k = ground (
  arith,
  CoversFrom-start t.end_key (u ∷ rest) j b c.2 q,
  is_empty_of_lt from t.end_key c.1,
  lt_le_trans key t.end_key b.start_key,
)
CoversFrom-disjoint from (t ∷ u ∷ rest) key (suc i) (suc j) a b c h p q k =
    CoversFrom-disjoint t.end_key (u ∷ rest) key i j a b c.2 (omega arith) p q k
