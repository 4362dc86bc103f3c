-- ===== src/Routing/Search.antt =====
-- The binary search is exact on a table in ascending order, and stays inside any table.
use le_kv.Base.{
  ℕ, zero, suc, ◌+◌, ◌-◌, ◌/◌, ◌<◌, ◌≤◌, true, false, some, List, ◌≡◌, arith, Bool-cases,
  Option-cases, length, get_elem?, get_elem?-lt, inl, inr, ltb,
}
use le_kv.Bytes.{Bytes, lt_bytes, le_bytes}
use le_kv.Bytes.Order.{le_bytes_trans, lt_le_trans}
use le_kv.Routing.{search_loop}

module _ {ℓ} {A : Type ℓ} (start_of : A → Bytes) (xs : List A) where
  -- The starts do not go down from one index to a later one.
  abbrev pub IsOrdered : Type ℓ
  IsOrdered =
      (i j : ℕ) (a b : A)
      → i ≤ j
      → get_elem? xs i ≡ some a
      → get_elem? xs j ≡ some b
      → lt_bytes (start_of b) (start_of a) ≡ false

  module _ (key : Bytes) where
    -- All elements before `n` start at or below the key.
    abbrev pub Below : ℕ → Type ℓ
    Below n = (i : ℕ) (a : A) → i < n → get_elem? xs i ≡ some a → lt_bytes key (start_of a) ≡ false

    -- All elements from `n` on start above the key.
    abbrev pub Above : ℕ → Type ℓ
    Above n = (i : ℕ) (a : A) → n ≤ i → get_elem? xs i ≡ some a → lt_bytes key (start_of a) ≡ true

    -- The search on [left, right) ends inside it and reads nothing outside it.
    pub search_loop_total :
        (fuel left right : ℕ)
        → left ≤ right
        → right ≤ length xs
        → right ≤ left + fuel
        → (n : ℕ) × (search_loop start_of xs key fuel left right ≡ some n) × (n ≤ right)
    unfolding search_loop
    search_loop_total zero left right h b f = (left, ground arith, h)
    search_loop_total (suc fuel) left right h b f = elim (Bool-cases (ltb left right)) [
      | inl go ↦
          let mid = left + (right - left) / 2 in
          let (t, e) = get_elem?-lt xs mid (ground arith) in
          elim (Bool-cases (le_bytes (start_of t) key)) [
            | inl c ↦
                let (n, r, q) =
                  search_loop_total fuel (mid + 1) right (ground arith) b (ground arith) in
                (n, ground (arith, e, r), q)
            | inr c ↦
                let (n, r, q) =
                  search_loop_total fuel left mid (ground arith) (ground arith) (ground arith) in
                (n, ground (arith, e, r), ground arith)
          ]
      | inr done ↦ (left, ground arith, h)
    ]

    -- On an ordered table the result has every start up to it at or below the key, and every other
    -- start above.
    pub search_loop-splits :
        (fuel left right n : ℕ)
        → IsOrdered
        → Below left
        → Above right
        → search_loop start_of xs key fuel left right ≡ some n
        → Below n × Above n
    unfolding search_loop
    search_loop-splits zero left right n o lo hi r =
        let e : left ≡ n = ground arith in
        let b : right ≤ left = ground arith in
        (λ i a p q. lo i a (omega arith) q, λ i a p q. hi i a (omega arith) q)
    search_loop-splits (suc fuel) left right n o lo hi r =
        let mid = left + (right - left) / 2 in
        elim (Bool-cases (ltb left right)) [
          | inr done ↦
              let e : left ≡ n = ground arith in
              let b : right ≤ left = ground arith in
              (λ i a p q. lo i a (omega arith) q, λ i a p q. hi i a (omega arith) q)
          | inl go ↦ elim (Option-cases (get_elem? xs mid)) [
            | inl out ↦ absurd (ground arith)
            | inr (t, e) ↦ elim (Bool-cases (lt_bytes key (start_of t))) [
              | inr c ↦
                  search_loop-splits fuel (mid + 1) right n o
                    (λ i a p q.
                      le_bytes_trans (start_of a) (start_of t) key (o i mid a t (omega arith) q e)
                        c)
                    hi (ground arith)
              | inl c ↦
                  search_loop-splits fuel left mid n o lo
                    (λ i a p q. lt_le_trans key (start_of t) (start_of a) c (o mid i t a p e q))
                    (ground arith)
            ]
          ]
        ]
