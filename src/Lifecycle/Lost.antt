-- ===== src/Lifecycle/Lost.antt =====
-- A signal that comes before Run has set `running_`.
use le_kv.Base.{
  if-true, if-none, some-elim, ℕ, Bool, true, false, some, ◌≡◌, ◌≢◌, refl, sym, ◌∙◌, arith,
  if◌then◌else◌,
}
use mathlib.Core.Path.{subst}
use le_kv.Lifecycle.{
  Process, MainPc, starting, flagging, arming, waiting, checking, dozing, sleeping, joining, exited,
  StopperPc, finished, free, main_holds, BalancerPc, absent, looping, over, main_from, stopper_from,
  balancer_from, Step, signal, main_step, stopper_step, balancer_step, Run, here, then_step,
}
use le_kv.Lifecycle.Fits.{when_free-some}

-- Run has not set `running_`, or has and stays in front of its wait.
abbrev Remains : MainPc → Bool → Type 0
Remains starting running = ⊥
Remains flagging running = Unit
Remains arming running = running ≡ true
Remains waiting running = running ≡ true
Remains checking running = running ≡ true
Remains dozing running = running ≡ true
Remains sleeping running = running ≡ true
Remains joining running = ⊥
Remains exited running = ⊥

record IsLost (s : Process) : Type 0 where
  stopped : s.stopper ≡ finished
  remains : Remains s.main s.running

Remains-if : (c : Bool) → Remains (if c then arming else waiting) true
Remains-if true = refl
Remains-if false = refl

module _ (s s' : Process) (v : IsLost s) where
  lost_at : (p : MainPc) → s.main ≡ p → Remains p s.running
  lost_at p e = subst (λ x. Remains x s.running) e v.remains

  main_from-IsLost :
      (p : MainPc) (started : Bool) → s.main ≡ p → main_from p started s ≡ some s' → IsLost s'
  unfolding main_from
  main_from-IsLost starting started p e = absurd (lost_at starting p)
  main_from-IsLost flagging started p e =
      some-elim IsLost (record s { running = true; main = if s.is_master then arming else waiting })
        s' e (record { stopped = v.stopped; remains = Remains-if s.is_master })
  main_from-IsLost arming started p e =
      some-elim IsLost (record s { balancer_running = true; balancer = looping; main = waiting }) s'
        e (record { stopped = v.stopped; remains = lost_at arming p })
  main_from-IsLost waiting started p e =
      let (_unlocked, f) = when_free-some s.mutex _ s' e in
      some-elim IsLost (record s { mutex = main_holds; main = checking }) s' f
        (record { stopped = v.stopped; remains = lost_at waiting p })
  main_from-IsLost checking started p e =
      let on = lost_at checking p in
      some-elim IsLost _ s' e (
        if-true IsLost s.running (record s { main = dozing }) _ on
          (record { stopped = v.stopped; remains = on }))
  main_from-IsLost dozing started p e =
      some-elim IsLost (record s { mutex = free; main = sleeping }) s' e
        (record { stopped = v.stopped; remains = lost_at dozing p })
  main_from-IsLost sleeping started p e = absurd (ground (arith, e))
  main_from-IsLost joining started p e = absurd (lost_at joining p)
  main_from-IsLost exited started p e = absurd (lost_at exited p)

  stopper_from-IsLost : (p : StopperPc) → s.stopper ≡ p → stopper_from p s ≡ some s' → IsLost s'
  unfolding stopper_from
  stopper_from-IsLost p q e = absurd (ground (arith, rw (sym q ∙ v.stopped) at e))

  balancer_from-IsLost : (p : BalancerPc) → balancer_from p s ≡ some s' → IsLost s'
  unfolding balancer_from
  balancer_from-IsLost absent e = absurd (ground (arith, e))
  balancer_from-IsLost over e = absurd (ground (arith, e))
  balancer_from-IsLost looping e =
      let (_off, f) = if-none s.balancer_running (record s { balancer = over }) s' e in
      some-elim IsLost (record s { balancer = over }) s' f
        (record { stopped = v.stopped; remains = v.remains })

  Step-IsLost : Step s s' → IsLost s'
  Step-IsLost (signal q e) = rw (← e) (record { stopped = v.stopped; remains = v.remains })
  Step-IsLost (main_step started e) = main_from-IsLost s.main started refl e
  Step-IsLost (stopper_step e) = stopper_from-IsLost s.stopper refl e
  Step-IsLost (balancer_step e) = balancer_from-IsLost s.balancer e

Run-IsLost : {s s' : Process} {k : ℕ} → IsLost s → Run s k s' → IsLost s'
Run-IsLost v here = v
Run-IsLost v (then_step {k} {s1} {s'} run st) = Step-IsLost s1 s' (Run-IsLost v run) st

-- If the stop thread has called Stop and has ended before Run sets `running_`, then `main` never
-- returns, whatever steps are taken: the signal is lost.
pub lost_stop :
    (s s' : Process) (k : ℕ)
    → s.main ≡ flagging
    → s.stopper ≡ finished
    → Run s k s'
    → s'.main ≢ exited
lost_stop s s' k m f run e =
    let v : IsLost s = record {
      stopped = f;
      remains = subst (λ x. Remains x s.running) (sym m) tt;
    } in
    lost_at s' s' (Run-IsLost v run) exited e
