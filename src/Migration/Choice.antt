-- ===== src/Migration/Choice.antt =====
-- The tablet and the node that DoLoadBalance chooses.
use le_kv.Base.{
  ℕ, zero, suc, ◌+◌, ◌<◌, ◌≤◌, Bool, true, false, ◌&&◌, some, List, [], ◌∷◌, ◌≡◌, ◌≢◌, refl, ap,
  sym, ◌∙◌, ◌⊎◌, inl, inr, arith, Option-cases, ltb, ◌==◌, if◌then◌else◌, length, get_elem?,
}
use le_kv.Routing.{Tablet}
use le_kv.Migration.{
  node_loads, max_load, min_load, largest_on, choose_move, balance_diff_threshold,
}
use le_kv.Migration.Load.{
  load_on, find_load, or_zero, In, find-node_loads, tablet-node_loads, IsMap-node_loads, In-find,
  find-In, max_load-In, min_load-In, max_load-le, min_load-le,
}

-- The loop kept its start, or found a larger tablet of the node.
abbrev Found : ℕ → List Tablet → ℕ → ℕ × ℕ → ℕ × ℕ → Type 0
Found node ts i best r =
    (r ≡ best)
    ⊎ ((j : ℕ) × (t : Tablet) × (get_elem? ts j ≡ some t)
        × (t.node_id ≡ node)
        × (t.key_count ≡ r.1)
        × (r.0 ≡ i + j)
        × (best.1 < r.1))

Found-cons :
    (node : ℕ) (t : Tablet) (ts : List Tablet) (i : ℕ) (best r : ℕ × ℕ) (c : Bool)
    → (t.node_id == node && ltb best.1 t.key_count) ≡ c
    → Found node ts (i + 1) (if c then (i, t.key_count) else best) r
    → Found node (t ∷ ts) i best r
Found-cons node t ts i best r true h (inl e) =
    let e0 : r.0 ≡ i = ap (λ x. x.0) e in
    let e1 : r.1 ≡ t.key_count = ap (λ x. x.1) e in
    inr (0, t, refl, ground arith, sym e1, omega arith, ground arith)
Found-cons node t ts i best r true h (inr (j, u, g, n, k, o, l)) =
    inr (suc j, u, g, n, k, omega arith, ground arith)
Found-cons node t ts i best r false h (inl e) = inl e
Found-cons node t ts i best r false h (inr (j, u, g, n, k, o, l)) =
    inr (suc j, u, g, n, k, omega arith, l)

largest_on-Found :
    (node : ℕ) (ts : List Tablet) (i : ℕ) (best : ℕ × ℕ)
    → Found node ts i best (largest_on node ts i best)
unfolding largest_on
largest_on-Found node [] i best = inl refl
largest_on-Found node (t ∷ ts) i best =
    Found-cons node t ts i best _ (t.node_id == node && ltb best.1 t.key_count) refl
      (largest_on-Found node ts (i + 1) _)

best_largest :
    (node : ℕ) (ts : List Tablet) (i : ℕ) (best : ℕ × ℕ) → best.1 ≤ (largest_on node ts i best).1
unfolding largest_on
best_largest node [] i best = omega arith
best_largest node (t ∷ ts) i best =
    ground (arith, best_largest node ts (i + 1) best, best_largest node ts (i + 1) (i, t.key_count))

largest_on-le :
    (node : ℕ) (ts : List Tablet) (i : ℕ) (best : ℕ × ℕ) (j : ℕ) (u : Tablet)
    → get_elem? ts j ≡ some u
    → u.node_id ≡ node
    → u.key_count ≤ (largest_on node ts i best).1
unfolding largest_on
largest_on-le node [] i best j u g n = cc
largest_on-le node (t ∷ ts) i best zero u g n =
    let same : t ≡ u = cc in
    let k : t.key_count ≡ u.key_count = ap (λ x. x.key_count) same in
    let m : t.node_id ≡ u.node_id = ap (λ x. x.node_id) same in
    ground (arith, best_largest node ts (i + 1) best, best_largest node ts (i + 1) (i, t.key_count))
largest_on-le node (t ∷ ts) i best (suc j) u g n = largest_on-le node ts (i + 1) _ j u g n

-- A move of a largest tablet from a node of the largest load to one of the smallest.
abbrev pub IsBalancing : List Tablet → ℕ → ℕ → Type 0
IsBalancing ts idx dst =
    (t : Tablet) × (get_elem? ts idx ≡ some t)
    × (0 < t.key_count)
    × ((j : ℕ) (u : Tablet)
        → get_elem? ts j ≡ some u
        → u.node_id ≡ t.node_id
        → u.key_count ≤ t.key_count)
    × (load_on dst ts + balance_diff_threshold ≤ load_on t.node_id ts)
    × ((j : ℕ) (u : Tablet)
        → get_elem? ts j ≡ some u
        → (load_on u.node_id ts ≤ load_on t.node_id ts) × (load_on dst ts ≤ load_on u.node_id ts))

module _ (ts : List Tablet) (fits : (n : ℕ) → load_on n ts < 18446744073709551616) where
  sums : (n : ℕ) → or_zero (find_load n (node_loads ts [])) ≡ load_on n ts
  sums n = let bound = fits n in find-node_loads n ts [] tt (omega arith) ∙ omega arith

  In-load : (x : ℕ × ℕ) → In x (node_loads ts []) → x.1 ≡ load_on x.0 ts
  In-load x i =
      let found = In-find x (node_loads ts []) (IsMap-node_loads ts [] tt) i in
      sym (ap or_zero found) ∙ sums x.0

  tablet-In :
      (j : ℕ) (u : Tablet)
      → get_elem? ts j ≡ some u
      → In (u.node_id, load_on u.node_id ts) (node_loads ts [])
  tablet-In j u g = elim (Option-cases (find_load u.node_id (node_loads ts []))) [
    | inl missing ↦ absurd (tablet-node_loads ts [] j u tt g missing)
    | inr (l, found) ↦
        let same : l ≡ load_on u.node_id ts = sym (ap or_zero found) ∙ sums u.node_id in
        find-In u.node_id (load_on u.node_id ts) (node_loads ts []) (found ∙ ap some same)
  ]

  module _ (first : ℕ × ℕ) (rest : List (ℕ × ℕ)) (loads : node_loads ts [] ≡ first ∷ rest) where
    most-load : (max_load first rest).1 ≡ load_on (max_load first rest).0 ts
    most-load = In-load (max_load first rest) (rw loads (max_load-In first rest))

    least-load : (min_load first rest).1 ≡ load_on (min_load first rest).0 ts
    least-load = In-load (min_load first rest) (rw loads (min_load-In first rest))

    extremes :
        (j : ℕ) (u : Tablet)
        → get_elem? ts j ≡ some u
        → (load_on u.node_id ts ≤ (max_load first rest).1)
          × ((min_load first rest).1 ≤ load_on u.node_id ts)
    extremes j u g =
        let i = rw loads at (tablet-In j u g) in
        (
          max_load-le first (u.node_id, load_on u.node_id ts) rest i,
          min_load-le first (u.node_id, load_on u.node_id ts) rest i,
        )

    chosen-IsBalancing :
        (min_load first rest).1 + balance_diff_threshold ≤ (max_load first rest).1
        → (largest_on (max_load first rest).0 ts 0 (length ts, 0)).0 < length ts
        → IsBalancing ts
            (largest_on (max_load first rest).0 ts 0 (length ts, 0)).0
            (min_load first rest).0
    chosen-IsBalancing gap inside =
        elim (largest_on-Found (max_load first rest).0 ts 0 (length ts, 0)) [
          | inl kept ↦
              let same : (largest_on (max_load first rest).0 ts 0 (length ts, 0)).0 ≡ length ts =
                ap (λ x. x.0) kept in
              absurd (omega arith)
          | inr (j, t, g, n, k, o, l) ↦
              let index : (largest_on (max_load first rest).0 ts 0 (length ts, 0)).0 ≡ j =
                omega arith in
              let there : load_on t.node_id ts ≡ (max_load first rest).1 =
                ap (λ x. load_on x ts) n ∙ sym most-load in
              (
                t,
                ap (get_elem? ts) index ∙ g,
                rw k l,
                λ i u p q.
                    rw k (largest_on-le (max_load first rest).0 ts 0 (length ts, 0) i u p (q ∙ n)),
                rw (there, ← least-load) gap,
                λ i u p. rw (there, ← least-load) (extremes i u p),
              )
        ]

  -- The tests of DoLoadBalance, on the loads of at least two nodes.
  tests_passed :
      (first second : ℕ × ℕ) (rest : List (ℕ × ℕ)) (idx dst : ℕ)
      → node_loads ts [] ≡ first ∷ second ∷ rest
      → choose_move ts ≡ some (idx, dst)
      → ((min_load first (second ∷ rest)).1 + balance_diff_threshold
          ≤ (max_load first (second ∷ rest)).1)
        × ((largest_on (max_load first (second ∷ rest)).0 ts 0 (length ts, 0)).0 < length ts)
        × ((largest_on (max_load first (second ∷ rest)).0 ts 0 (length ts, 0)).0 ≡ idx)
        × ((min_load first (second ∷ rest)).0 ≡ dst)
  unfolding choose_move
  tests_passed first second rest idx dst loads e = ground arith

  no_move : (idx dst : ℕ) → node_loads ts [] ≡ [] → choose_move ts ≢ some (idx, dst)
  unfolding choose_move
  no_move idx dst loads e = ground arith

  one_node :
      (x : ℕ × ℕ) (idx dst : ℕ) → node_loads ts [] ≡ x ∷ [] → choose_move ts ≢ some (idx, dst)
  unfolding choose_move
  one_node x idx dst loads e = ground arith

  by_loads :
      (ls : List (ℕ × ℕ)) (idx dst : ℕ)
      → node_loads ts [] ≡ ls
      → choose_move ts ≡ some (idx, dst)
      → IsBalancing ts idx dst
  by_loads [] idx dst loads e = absurd (no_move idx dst loads e)
  by_loads (x ∷ []) idx dst loads e = absurd (one_node x idx dst loads e)
  by_loads (first ∷ second ∷ rest) idx dst loads e =
      let (gap, inside, i, d) = tests_passed first second rest idx dst loads e in
      rw (i, d) at (chosen-IsBalancing first (second ∷ rest) loads gap inside)

  pub choose_move-IsBalancing :
      (idx dst : ℕ) → choose_move ts ≡ some (idx, dst) → IsBalancing ts idx dst
  choose_move-IsBalancing idx dst e = by_loads (node_loads ts []) idx dst refl e
