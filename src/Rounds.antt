-- ===== src/Rounds.antt =====
-- kv/raft_node.cpp: BalancerLoop, the thread of the master. It sleeps before each round; a round asks
-- for the statistics, splits the tablets that are full, and moves one tablet.
pub mod Sound
mod Tests
use le_kv.Base.{ℕ, zero, suc, ◌+◌, Bool, Option, none, some, leb, if◌then◌else◌, get_elem?}
use le_kv.Exec.{Exec, pure, ◌>>=◌, ◌>>◌}
use le_kv.Master.{Master}
use le_kv.Master.Interface.{Env}
use le_kv.Routing.{Tablet}
use le_kv.Balancer.{tablets_now, split_threshold, try_split_tablet}
use le_kv.Migration.{sync_all_tablet_stats, do_load_balance}

module _ (env : Env) where
  -- The rest of BalancerLoop's loop of splits: the tablet at `idx`, if the index is below the size,
  -- and what follows.
  unfoldable pub split_step :
      ℕ → Exec (Master env) (Unit {0}) → Option Tablet → Exec (Master env) (Unit {0})
  split_step idx rest none = pure tt
  split_step idx rest (some t) =
      if leb split_threshold t.key_count then (do did ← try_split_tablet env idx; rest) else rest

  -- The loop of splits, for so many tests of its condition: the table grows while it runs.
  unfoldable pub split_full : ℕ → ℕ → Exec (Master env) (Unit {0})
  split_full zero idx = pure tt
  split_full (suc tests) idx = do
    ts ← tablets_now env
    split_step idx (split_full tests (idx + 1)) (get_elem? ts idx)

  -- One round.
  unfoldable pub balance_round : ℕ → Exec (Master env) (Unit {0})
  balance_round tests = do
    sync_all_tablet_stats env
    split_full tests 0
    moved ← do_load_balance env
    pure tt

  -- BalancerLoop, while `balancer_running_` is true for so many rounds.
  unfoldable pub balancer_loop : ℕ → ℕ → Exec (Master env) (Unit {0})
  balancer_loop zero tests = pure tt
  balancer_loop (suc rounds) tests = do balance_round tests; balancer_loop rounds tests
