-- ===== src/Migration/Load.antt =====
-- The loads of the nodes, as DoLoadBalance adds them up.
use le_kv.Base.{
  ℕ, zero, suc, ◌+◌, ◌<◌, ◌≤◌, Bool, true, false, Option, none, some, List, [], ◌∷◌, ◌≡◌, ◌≢◌, refl,
  ap, ◌⊎◌, inl, inr, arith, ltb, ◌==◌, if◌then◌else◌, get_elem?,
}
use le_kv.Bytes.Endian.{u64}
use le_kv.Routing.{Tablet}
use le_kv.Migration.{add_load, node_loads, max_load, min_load}

-- The keys on a node.
abbrev pub load_on : ℕ → List Tablet → ℕ
load_on n [] = 0
load_on n (t ∷ ts) = (if t.node_id == n then t.key_count else 0) + load_on n ts

abbrev pub find_load : ℕ → List (ℕ × ℕ) → Option ℕ
find_load n [] = none
find_load n ((k, l) ∷ ls) = if k == n then some l else find_load n ls

abbrev pub or_zero : Option ℕ → ℕ
or_zero none = 0
or_zero (some l) = l

abbrev pub Above : ℕ → List (ℕ × ℕ) → Type 0
Above n [] = Unit
Above n ((k, l) ∷ ls) = (n < k) × Above n ls

abbrev pub IsMap : List (ℕ × ℕ) → Type 0
IsMap [] = Unit
IsMap ((k, l) ∷ ls) = Above k ls × IsMap ls

find-Above : (n k : ℕ) (ls : List (ℕ × ℕ)) → k ≤ n → Above n ls → find_load k ls ≡ none
find-Above n k [] h a = refl
find-Above n k ((j, l) ∷ ls) h a = ground (arith, find-Above n k ls h a.1)

Above-trans : (n k : ℕ) (ls : List (ℕ × ℕ)) → n < k → Above k ls → Above n ls
Above-trans n k [] h a = tt
Above-trans n k ((j, l) ∷ ls) h a = (omega arith, Above-trans n k ls h a.1)

Above-add_load :
    (n node count : ℕ) (ls : List (ℕ × ℕ))
    → n < node
    → Above n ls
    → Above n (add_load node count ls)
unfolding add_load
Above-add_load n node count [] h a = (h, tt)
Above-add_load n node count ((j, l) ∷ ls) h a = ground (arith, Above-add_load n node count ls h a.1)

IsMap-add_load : (node count : ℕ) (ls : List (ℕ × ℕ)) → IsMap ls → IsMap (add_load node count ls)
unfolding add_load
IsMap-add_load node count [] m = (tt, tt)
IsMap-add_load node count ((j, l) ∷ ls) m =
    ground (
      arith,
      IsMap-add_load node count ls m.1,
      Above-add_load j node count ls,
      Above-trans node j ls,
    )

find-add_load :
    (n node count : ℕ) (ls : List (ℕ × ℕ))
    → IsMap ls
    → find_load n (add_load node count ls)
      ≡ (if node == n then some (u64 (or_zero (find_load node ls) + count)) else find_load n ls)
unfolding add_load
find-add_load n node count [] m = ground arith
find-add_load n node count ((j, l) ∷ ls) m =
    ground (arith, find-add_load n node count ls m.1, find-Above j node ls)

-- The load of a node is what it was before, and the keys of its tablets.
pub find-node_loads :
    (n : ℕ) (ts : List Tablet) (ls : List (ℕ × ℕ))
    → IsMap ls
    → or_zero (find_load n ls) + load_on n ts < 18446744073709551616
    → or_zero (find_load n (node_loads ts ls)) ≡ or_zero (find_load n ls) + load_on n ts
unfolding node_loads
find-node_loads n [] ls m h = omega arith
find-node_loads n (t ∷ ts) ls m h = ground (
  arith,
  find-add_load n t.node_id t.key_count ls m,
  find-node_loads n ts (add_load t.node_id t.key_count ls)
      (IsMap-add_load t.node_id t.key_count ls m),
)

-- The node of a tablet is among the loads.
has-add_load :
    (n node count : ℕ) (ls : List (ℕ × ℕ))
    → IsMap ls
    → (node ≡ n) ⊎ (find_load n ls ≢ none)
    → find_load n (add_load node count ls) ≢ none
has-add_load n node count ls m h = ground (arith, find-add_load n node count ls m)

has-node_loads :
    (n : ℕ) (ts : List Tablet) (ls : List (ℕ × ℕ))
    → IsMap ls
    → find_load n ls ≢ none
    → find_load n (node_loads ts ls) ≢ none
unfolding node_loads
has-node_loads n [] ls m h = h
has-node_loads n (t ∷ ts) ls m h =
    has-node_loads n ts (add_load t.node_id t.key_count ls)
      (IsMap-add_load t.node_id t.key_count ls m)
      (has-add_load n t.node_id t.key_count ls m (inr h))

pub tablet-node_loads :
    (ts : List Tablet) (ls : List (ℕ × ℕ)) (i : ℕ) (t : Tablet)
    → IsMap ls
    → get_elem? ts i ≡ some t
    → find_load t.node_id (node_loads ts ls) ≢ none
unfolding node_loads
tablet-node_loads [] ls i t m g = cc
tablet-node_loads (u ∷ ts) ls zero t m g =
    let same : t ≡ u = cc in
    rw same (
      has-node_loads u.node_id ts (add_load u.node_id u.key_count ls)
        (IsMap-add_load u.node_id u.key_count ls m)
        (has-add_load u.node_id u.node_id u.key_count ls m (inl refl)))
tablet-node_loads (u ∷ ts) ls (suc i) t m g =
    tablet-node_loads ts (add_load u.node_id u.key_count ls) i t
      (IsMap-add_load u.node_id u.key_count ls m) g

pub IsMap-node_loads : (ts : List Tablet) (ls : List (ℕ × ℕ)) → IsMap ls → IsMap (node_loads ts ls)
unfolding node_loads
IsMap-node_loads [] ls m = m
IsMap-node_loads (t ∷ ts) ls m =
    IsMap-node_loads ts (add_load t.node_id t.key_count ls)
      (IsMap-add_load t.node_id t.key_count ls m)

-- An entry of the loads.
abbrev pub In : ℕ × ℕ → List (ℕ × ℕ) → Type 0
In x [] = ⊥
In x (y ∷ ys) = (y ≡ x) ⊎ In x ys

In-Above : (n : ℕ) (x : ℕ × ℕ) (ls : List (ℕ × ℕ)) → Above n ls → In x ls → n < x.0
In-Above n x [] a i = absurd i
In-Above n x (y ∷ ls) a (inl e) = rw (← e) a.0
In-Above n x (y ∷ ls) a (inr i) = In-Above n x ls a.1 i

pub In-find : (x : ℕ × ℕ) (ls : List (ℕ × ℕ)) → IsMap ls → In x ls → find_load x.0 ls ≡ some x.1
In-find x [] m i = absurd i
In-find (n, v) ((k, l) ∷ ls) m (inl e) =
    let p : k ≡ n = ap (λ y. y.0) e in let q : l ≡ v = ap (λ y. y.1) e in ground arith
In-find x ((k, l) ∷ ls) m (inr i) =
    let apart = In-Above k x ls m.0 i in ground (arith, In-find x ls m.1 i)

pub find-In : (n l : ℕ) (ls : List (ℕ × ℕ)) → find_load n ls ≡ some l → In (n, l) ls
find-In n l [] e = cc
find-In n l ((k, j) ∷ ls) e = ground (arith, find-In n l ls)

In-either :
    (c : Bool) (b x m : ℕ × ℕ) (xs : List (ℕ × ℕ))
    → In m ((if c then x else b) ∷ xs)
    → In m (b ∷ x ∷ xs)
In-either true b x m xs i = inr i
In-either false b x m xs (inl e) = inl e
In-either false b x m xs (inr i) = inr (inr i)

pub max_load-In : (b : ℕ × ℕ) (xs : List (ℕ × ℕ)) → In (max_load b xs) (b ∷ xs)
unfolding max_load
max_load-In b [] = inl refl
max_load-In b (x ∷ xs) =
    In-either (ltb b.1 x.1) b x _ xs (max_load-In (if ltb b.1 x.1 then x else b) xs)

pub min_load-In : (b : ℕ × ℕ) (xs : List (ℕ × ℕ)) → In (min_load b xs) (b ∷ xs)
unfolding min_load
min_load-In b [] = inl refl
min_load-In b (x ∷ xs) =
    In-either (ltb x.1 b.1) b x _ xs (min_load-In (if ltb x.1 b.1 then x else b) xs)

best_max : (b : ℕ × ℕ) (xs : List (ℕ × ℕ)) → b.1 ≤ (max_load b xs).1
unfolding max_load
best_max b [] = omega arith
best_max b (x ∷ xs) = ground (arith, best_max b xs, best_max x xs)

best_min : (b : ℕ × ℕ) (xs : List (ℕ × ℕ)) → (min_load b xs).1 ≤ b.1
unfolding min_load
best_min b [] = omega arith
best_min b (x ∷ xs) = ground (arith, best_min b xs, best_min x xs)

pub max_load-le : (b x : ℕ × ℕ) (xs : List (ℕ × ℕ)) → In x (b ∷ xs) → x.1 ≤ (max_load b xs).1
unfolding max_load
max_load-le b x xs (inl e) = rw (← e) (best_max b xs)
max_load-le b x [] (inr i) = absurd i
max_load-le b x (y ∷ xs) (inr (inl e)) = rw (← e) (ground (arith, best_max b xs, best_max y xs))
max_load-le b x (y ∷ xs) (inr (inr i)) = max_load-le (if ltb b.1 y.1 then y else b) x xs (inr i)

pub min_load-le : (b x : ℕ × ℕ) (xs : List (ℕ × ℕ)) → In x (b ∷ xs) → (min_load b xs).1 ≤ x.1
unfolding min_load
min_load-le b x xs (inl e) = rw (← e) (best_min b xs)
min_load-le b x [] (inr i) = absurd i
min_load-le b x (y ∷ xs) (inr (inl e)) = rw (← e) (ground (arith, best_min b xs, best_min y xs))
min_load-le b x (y ∷ xs) (inr (inr i)) = min_load-le (if ltb y.1 b.1 then y else b) x xs (inr i)
