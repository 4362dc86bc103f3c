-- ===== src/Rounds/Sound.antt =====
-- However many rounds the balancer makes, the routing table stays sound.
use le_kv.Base.{
  ℕ, zero, suc, ◌+◌, ◌*◌, ◌<◌, ◌≤◌, Bool, true, false, Option, none, some, ◌≡◌, refl, ap, ◌∙◌,
  arith, get_elem?, set, leb, length, inl, inr,
}
use le_kv.Exec.{Exec, pure, lift, if-eq-some, ◌>>=◌, ◌>>◌}
use le_kv.Exec
use le_kv.Master.{Master, query_tablet_stats}
use le_kv.Master.Interface.{Env}
use le_kv.Master.Keeps.{KeepsTable-query_tablet_stats}
use le_kv.Storage.{Stats}
use le_kv.Routing.{Table, Tablet}
use le_kv.Balancer.{split_threshold, try_split_tablet}
use le_kv.Balancer.Split.{
  IsTable, DidSplit, next-split_table, try_split_tablet-DidSplit, try_split_tablet-IsTable,
}
use le_kv.Migration.{store_count, sync_from, sync_all_tablet_stats, do_load_balance}
use le_kv.Migration.Balance.{do_load_balance-IsTable, do_load_balance-next}
use le_kv.Migration.Replace.{IsTable-set}
use le_kv.Rounds.{split_step, split_full, balance_round, balancer_loop}

-- A sound table with at least so many ids left before the next id wraps.
pub record IsSound (left : ℕ) (t : Table) : Type 0 where
  pub table : IsTable t
  pub ids : t.next_tablet_id + left < 18446744073709551616

IsSound-mono : (n m : ℕ) (t : Table) → m ≤ n → IsSound n t → IsSound m t
IsSound-mono n m t h v = let ids = v.ids in record { table = v.table; ids = omega arith }

module _ (env : Env) where
  -- Wherever the method returns on a table with so many ids left, it leaves one with fewer.
  abbrev pub Keeps : ℕ → ℕ → Exec (Master env) (Unit {0}) → Type 0
  Keeps n k method =
      (m m' : Master env) (u : Unit {0})
      → IsSound n m.table
      → method m ≡ some (u, m')
      → IsSound k m'.table

  store_count-IsSound :
      (n i : ℕ) (t : Tablet) (resp : Option Stats) (m m' : Master env) (u : Unit {0})
      → get_elem? m.table.tablets i ≡ some t
      → IsSound n m.table
      → store_count env i t resp m ≡ some (u, m')
      → IsSound n m'.table
  unfolding store_count
  store_count-IsSound n i t none m m' u g v e = let same : m' ≡ m = ground arith in rw same v
  store_count-IsSound n i t (some st) m m' u g v e =
      let same : m'.table ≡ record (m.table) {
        tablets = set m.table.tablets i (record t { key_count = st.key_count });
      } =
        ground arith in
      let good =
        IsTable-set t (record t { key_count = st.key_count })
          (record { id = refl; start = refl; end = refl }) m.table i (m.table.epoch) g (v.table) in
      rw same (record { table = good; ids = v.ids })

  lift-ends :
      {A : Type 0} (o : Option A) (m m' : Master env) (a : A)
      → lift o m ≡ some (a, m')
      → (o ≡ some a) × (m' ≡ m)
  lift-ends none m m' a e = cc
  lift-ends (some x) m m' a e = (ground arith, ground arith)

  sync_from-IsSound : (n left i : ℕ) → Keeps n n (sync_from env left i)
  unfolding sync_from
  sync_from-IsSound n zero i m m' u v e = let same : m' ≡ m = ground arith in rw same v
  sync_from-IsSound n (suc left) i m m' u v e =
      let (t, m1, p, rest) = Exec.>>=-eq-some (lift (get_elem? m.table.tablets i)) _ m m' u e in
      let (found, same) = lift-ends (get_elem? m.table.tablets i) m m1 t p in
      let (resp, m2, q, rest2) =
        Exec.>>=-eq-some (query_tablet_stats env t.node_id t.start_key t.end_key) _ m1 m' u rest in
      let kept : m2.table ≡ m.table =
        (KeepsTable-query_tablet_stats env t.node_id t.start_key t.end_key).at m1 m2 resp q
        ∙ ap (λ x. x.table) same in
      let (u1, m3, r, last) = Exec.>>=-eq-some (store_count env i t resp) _ m2 m' u rest2 in
      let stored = store_count-IsSound n i t resp m2 m3 u1 (rw kept found) (rw kept v) r in
      sync_from-IsSound n left (i + 1) m3 m' u stored last

  split_one :
      (n idx : ℕ) (m m' : Master env) (b : Bool)
      → IsSound (2 + n) m.table
      → try_split_tablet env idx m ≡ some (b, m')
      → IsSound n m'.table
  split_one n idx m m' b v e =
      let ids = v.ids in
      let (good, _nodes) = try_split_tablet-IsTable env idx m m' b v.table (omega arith) e in
      record { table = good; ids = next_ids b (try_split_tablet-DidSplit env idx m m' b e) }
    where
      next_ids :
          (b : Bool)
          → DidSplit env idx b m.table m'.table
          → m'.table.next_tablet_id + n < 18446744073709551616
      next_ids false d = let ids = v.ids in rw d (omega arith)
      next_ids true (old, st, g, full, ok, d) =
          let ids = v.ids in
          let next = next-split_table idx old st m.table g ok (omega arith) in
          rw (d, next) (omega arith)

  split_step-IsSound :
      (n k idx : ℕ) (rest : Exec (Master env) (Unit {0})) (o : Option Tablet)
      → k ≤ n
      → Keeps n k rest
      → Keeps (2 + n) k (split_step env idx rest o)
  unfolding split_step
  split_step-IsSound n k idx rest none h r m m' u v e =
      let same : m' ≡ m = ground arith in rw same (IsSound-mono (2 + n) k m.table (omega arith) v)
  split_step-IsSound n k idx rest (some t) h r m m' u v e =
      elim (if-eq-some (leb split_threshold t.key_count) _ rest m (u, m') e) [
        | inl (_full, q) ↦
            let (b, m1, p, last) = Exec.>>=-eq-some (try_split_tablet env idx) _ m m' u q in
            r m1 m' u (split_one n idx m m1 b v p) last
        | inr (_small, q) ↦ r m m' u (IsSound-mono (2 + n) n m.table (omega arith) v) q
      ]

  split_full-IsSound : (n tests idx : ℕ) → Keeps (2 * tests + n) n (split_full env tests idx)
  unfolding split_full
  split_full-IsSound n zero idx m m' u v e =
      let same : m' ≡ m = ground arith in
      rw same (IsSound-mono (2 * 0 + n) n m.table (omega arith) v)
  split_full-IsSound n (suc tests) idx m m' u v e =
      split_step-IsSound (2 * tests + n) n idx (split_full env tests (idx + 1))
        (get_elem? m.table.tablets idx) (omega arith) (split_full-IsSound n tests (idx + 1)) m m' u
        (IsSound-mono (2 * suc tests + n) (2 + (2 * tests + n)) m.table (omega arith) v) e

  -- A round of the balancer.
  balance_round-IsSound : (n tests : ℕ) → Keeps (2 * tests + n) n (balance_round env tests)
  unfolding balance_round sync_all_tablet_stats
  balance_round-IsSound n tests m m' u v e =
      let (u1, m1, p, rest) = Exec.>>=-eq-some (sync_all_tablet_stats env) _ m m' u e in
      let (u2, m2, q, rest2) = Exec.>>=-eq-some (split_full env tests 0) _ m1 m' u rest in
      let (b, m3, r, last) = Exec.>>=-eq-some (do_load_balance env) _ m2 m' u rest2 in
      let synced = sync_from-IsSound (2 * tests + n) (length m.table.tablets) 0 m m1 u1 v p in
      let split = split_full-IsSound n tests 0 m1 m2 u2 synced q in
      let (good, _moved) = do_load_balance-IsTable env m2 m3 b split.table r in
      let ids = split.ids in
      let next = do_load_balance-next env m2 m3 b r in
      let same : m' ≡ m3 = ground arith in rw same (record { table = good; ids = rw next ids })

  -- However many rounds BalancerLoop makes, and however often the loop of splits in each tests its
  -- condition, the tablets still cut the key space, with distinct ids below the next id, whatever the
  -- data nodes answer, if two ids for each of these tests are left before the next id wraps.
  pub balancer_loop-IsTable :
      (rounds tests : ℕ) (m m' : Master env) (u : Unit {0})
      → IsTable m.table
      → m.table.next_tablet_id + 2 * (rounds * tests) < 18446744073709551616
      → balancer_loop env rounds tests m ≡ some (u, m')
      → IsTable m'.table
  unfolding balancer_loop
  balancer_loop-IsTable zero tests m m' u v h e = let same : m' ≡ m = ground arith in rw same v
  balancer_loop-IsTable (suc rounds) tests m m' u v h e =
      let (u1, m1, p, rest) = Exec.>>=-eq-some (balance_round env tests) _ m m' u e in
      let sound =
        balance_round-IsSound (2 * (rounds * tests)) tests m m1 u1
          (record { table = v; ids = omega arith }) p in
      let good = sound.table in
      let ids = sound.ids in balancer_loop-IsTable rounds tests m1 m' u good ids rest
