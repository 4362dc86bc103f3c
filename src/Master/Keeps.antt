-- ===== src/Master/Keeps.antt =====
-- Methods of the master that leave its routing table alone.
use le_kv.Base.{ℕ, Bool, true, false, Option, none, some, ◌≡◌, ◌∙◌, if◌then◌else◌, arith}
use le_kv.Bytes.{Bytes}
use le_kv.Exec.{Exec, pure, lift, gets, ◌>>=◌}
use le_kv.Exec
use le_kv.Master.{Master, call, range_request, query_tablet_stats, send_delete_range, save_tablets}
use le_kv.Master.Interface.{Env}

-- Wherever the method returns, the table is as it was.
pub record KeepsTable {env : Env} {A : Type 0} (method : Exec (Master env) A) : Type 0 where
  pub at : (m m' : Master env) (a : A) → method m ≡ some (a, m') → m'.table ≡ m.table

module _ {env : Env} {A : Type 0} where
  pub KeepsTable-pure : (a : A) → KeepsTable {env = env} (pure a)
  KeepsTable-pure a = record { at = λ m m' b e. ground arith }

  pub KeepsTable-gets : (f : Master env → A) → KeepsTable (gets f)
  KeepsTable-gets f = record { at = λ m m' b e. ground arith }

  pub KeepsTable-lift : (o : Option A) → KeepsTable {env = env} (lift o)
  KeepsTable-lift none = record { at = λ m m' b e. cc }
  KeepsTable-lift (some a) = record { at = λ m m' b e. ground arith }

  pub KeepsTable-if :
      (b : Bool) (f g : Exec (Master env) A)
      → KeepsTable f
      → KeepsTable g
      → KeepsTable (if b then f else g)
  KeepsTable-if true f g kf kg = kf
  KeepsTable-if false f g kf kg = kg

module _ {env : Env} {A B : Type 0} where
  pub KeepsTable-bind :
      (f : Exec (Master env) A) (g : A → Exec (Master env) B)
      → KeepsTable f
      → ((a : A) → KeepsTable (g a))
      → KeepsTable (f >>= g)
  KeepsTable-bind f g kf kg = record {
    at = λ m m' b e.
        let (a, m1, p, q) = Exec.>>=-eq-some f g m m' b e in (kg a).at m1 m' b q ∙ kf.at m m1 a p;
  }

module _ (env : Env) where
  pub KeepsTable-call : (node : ℕ) (req : Bytes) → KeepsTable (call env node req)
  KeepsTable-call node req = record { at = λ m m' b e. ground arith }

  pub KeepsTable-save_tablets : KeepsTable (save_tablets env)
  unfolding save_tablets
  KeepsTable-save_tablets = record { at = λ m m' b e. ground arith }

  pub KeepsTable-range_request :
      (node op : ℕ) (start stop : Bytes) → KeepsTable (range_request env node op start stop)
  unfolding range_request
  KeepsTable-range_request node op start stop = record { at = λ m m' b e. ground arith }

  pub KeepsTable-query_tablet_stats :
      (node : ℕ) (start stop : Bytes) → KeepsTable (query_tablet_stats env node start stop)
  unfolding query_tablet_stats
  KeepsTable-query_tablet_stats node start stop = record { at = λ m m' b e. ground arith }

  pub KeepsTable-send_delete_range :
      (node : ℕ) (start stop : Bytes) → KeepsTable (send_delete_range env node start stop)
  unfolding send_delete_range
  KeepsTable-send_delete_range node start stop = record { at = λ m m' b e. ground arith }

pub ruleset keeps_table = (
  KeepsTable-pure, KeepsTable-gets, KeepsTable-lift, KeepsTable-if, KeepsTable-bind,
  KeepsTable-call, KeepsTable-save_tablets, KeepsTable-range_request, KeepsTable-query_tablet_stats,
  KeepsTable-send_delete_range,
)
