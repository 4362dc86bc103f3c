-- ===== src/Lifecycle/Ends.antt =====
-- A signal to a node that waits in Run ends the process.
use le_kv.Base.{ℕ, ◌+◌, ◌≤◌, true, false, some, ◌≡◌, refl, ap, sym, ◌∙◌, arith, inl, inr, ◌⊎◌}
use mathlib.Core.Path.{subst}
use le_kv.Lifecycle.{
  Process, MainPc, starting, flagging, arming, waiting, checking, dozing, sleeping, joining, exited,
  StopperPc, polling, calling, locking, holding, notifying, disarming, closing, awaiting, finished,
  free, main_holds, stopper_holds, when_free, BalancerPc, absent, looping, over, after_stopper,
  main_from, after_balancer, stopper_from, balancer_from, Step, main_step, stopper_step,
  balancer_step, Run, here, then_step,
}
use le_kv.Lifecycle.Measure.{
  in_wait, main_has, main_left, IsEnding, era, can_be, holder, balancer_left, left, Disarmed,
}
use le_kv.Lifecycle.Steps.{ending_at, Step-Less}

-- A step can be taken.
abbrev pub GoesOn : Process → Type 0
GoesOn s = (s' : Process) × Step s s'

module _ (s : Process) (v : IsEnding s) where
  by_stopper : (s' : Process) → stopper_from s.stopper s ≡ some s' → GoesOn s
  by_stopper s' e = (s', stopper_step e)

  by_main : (s' : Process) → main_from s.main true s ≡ some s' → GoesOn s
  by_main s' e = (s', main_step true e)

  balancer_goes : (b : BalancerPc) → s.balancer ≡ b → s.stopper ≡ awaiting → GoesOn s
  unfolding stopper_from after_balancer balancer_from
  balancer_goes absent p e = by_stopper (record s { stopper = finished }) (rw (e, p) refl)
  balancer_goes looping p e =
      let (_place, _flag, _lock, off) = ending_at s s v awaiting e in
      (record s { balancer = over }, balancer_step (rw (p, off) refl))
  balancer_goes over p e = by_stopper (record s { stopper = finished }) (rw (e, p) refl)

  cannot_be :
      (m : MainPc) (q : StopperPc) → s.main ≡ m → s.stopper ≡ q → can_be (era q) m ≡ false → ⊥
  cannot_be m q p e never = let (c, _r, _h, _d) = ending_at s s v q e in absurd (ground (arith, p))

  lock_of : (m : MainPc) (q : StopperPc) → s.main ≡ m → s.stopper ≡ q → s.mutex ≡ holder (era q) m
  lock_of m q p e = let (_c, _r, h, _d) = ending_at s s v q e in h ∙ ap (holder (era q)) p

  takes : s.stopper ≡ locking → s.mutex ≡ free → GoesOn s
  unfolding stopper_from when_free
  takes e unlocked =
      by_stopper (record s { mutex = stopper_holds; stopper = holding }) (rw (e, unlocked) refl)

  -- Stop before its mutex: it takes it, or `main` has it and goes on.
  locks : (m : MainPc) → s.main ≡ m → s.stopper ≡ locking → GoesOn s
  unfolding main_from stopper_from when_free
  locks starting p e = absurd (cannot_be starting locking p e refl)
  locks flagging p e = absurd (cannot_be flagging locking p e refl)
  locks arming p e = absurd (cannot_be arming locking p e refl)
  locks waiting p e = takes e (lock_of waiting locking p e)
  locks checking p e = by_main _ (ap (λ p. main_from p true s) p)
  locks dozing p e = by_main _ (ap (λ p. main_from p true s) p)
  locks sleeping p e = takes e (lock_of sleeping locking p e)
  locks joining p e = absurd (cannot_be joining locking p e refl)
  locks exited p e = absurd (cannot_be exited locking p e refl)

  -- Stop has returned.
  main_goes : (m : MainPc) → s.main ≡ m → s.stopper ≡ finished → (s.main ≡ exited) ⊎ GoesOn s
  unfolding main_from after_stopper when_free
  main_goes starting p e = absurd (cannot_be starting finished p e refl)
  main_goes flagging p e = absurd (cannot_be flagging finished p e refl)
  main_goes arming p e = absurd (cannot_be arming finished p e refl)
  main_goes waiting p e =
      let unlocked = lock_of waiting finished p e in
      inr (by_main (record s { mutex = main_holds; main = checking }) (rw (p, unlocked) refl))
  main_goes checking p e = inr (by_main _ (ap (λ p. main_from p true s) p))
  main_goes dozing p e = inr (by_main _ (ap (λ p. main_from p true s) p))
  main_goes sleeping p e = absurd (cannot_be sleeping finished p e refl)
  main_goes joining p e = inr (by_main (record s { main = exited }) (rw (p, e) refl))
  main_goes exited p e = inl p

  goes_on : (p : StopperPc) → s.stopper ≡ p → (s.main ≡ exited) ⊎ GoesOn s
  unfolding stopper_from
  goes_on polling e =
      let on = v.signalled in inr (by_stopper (record s { stopper = calling }) (rw (e, on) refl))
  goes_on locking e = inr (locks s.main refl e)
  goes_on awaiting e = inr (balancer_goes s.balancer refl e)
  goes_on finished e = main_goes s.main refl e
  goes_on calling e = inr (by_stopper _ (ap (λ p. stopper_from p s) e))
  goes_on holding e = inr (by_stopper _ (ap (λ p. stopper_from p s) e))
  goes_on notifying e = inr (by_stopper _ (ap (λ p. stopper_from p s) e))
  goes_on disarming e = inr (by_stopper _ (ap (λ p. stopper_from p s) e))
  goes_on closing e = inr (by_stopper _ (ap (λ p. stopper_from p s) e))

Run-left : {s s' : Process} {k : ℕ} → IsEnding s → Run s k s' → IsEnding s' × (k + left s' ≤ left s)
Run-left v here = (v, omega arith)
Run-left v (then_step {k} {s1} {s'} run st) =
    let (v1, less) = Run-left v run in let (v', one) = Step-Less s1 s' v1 st in (v', omega arith)

-- If SIGINT comes when Run is anywhere in its wait, asleep or not, with `running_` set and the mutex
-- held by `main` exactly while it tests and until it sleeps, and the stop thread has not called Stop,
-- then, however the threads interleave, at most eighteen steps are taken, and at each point `main` has
-- returned or a thread can go on. A round of the balancer and what the server's own threads do until
-- its Stop returns are no steps here; the wait wakes only when it is notified.
pub signal-ends :
    (s s' : Process) (k : ℕ)
    → s.g_stop ≡ true
    → in_wait s.main ≡ true
    → s.mutex ≡ main_has s.main
    → s.running ≡ true
    → s.stopper ≡ polling
    → Run s k s'
    → (k ≤ 18) × ((s'.main ≡ exited) ⊎ GoesOn s')
signal-ends s s' k on m x r p run =
    let v : IsEnding s = record {
      signalled = on;
      place = rw p m;
      flag = rw p r;
      lock = rw p x;
      disarmed = subst (λ q. Disarmed q s.balancer_running) (sym p) tt;
    } in
    let (v', bound) = Run-left v run in
    let whole : left s ≤ 18 = rw p (both (main_small s.main) (balancer_small s.balancer)) in
    (omega arith, goes_on s' v' s'.stopper refl)
  where
    both : {a b : ℕ} → a ≤ 6 → b ≤ 1 → a + 11 + b ≤ 18
    both h g = omega arith

    balancer_small : (b : BalancerPc) → balancer_left b ≤ 1
    balancer_small absent = omega arith
    balancer_small looping = omega arith
    balancer_small over = omega arith

    main_small : (q : MainPc) → main_left q ≤ 6
    main_small starting = omega arith
    main_small flagging = omega arith
    main_small arming = omega arith
    main_small waiting = omega arith
    main_small checking = omega arith
    main_small dozing = omega arith
    main_small sleeping = omega arith
    main_small joining = omega arith
    main_small exited = omega arith
