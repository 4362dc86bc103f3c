-- ===== src/Lifecycle/Steps.antt =====
-- Each step of a node that ends leaves it ending, with fewer steps left.
use le_kv.Base.{
  ◌<◌, Bool, true, false, some, ◌≡◌, ◌≢◌, refl, sym, ◌∙◌, arith, some-elim, if-some, if-none,
  if-true, if◌then◌else◌,
}
use mathlib.Core.Path.{subst}
use le_kv.Lifecycle.{
  Process, MainPc, starting, flagging, arming, waiting, checking, dozing, sleeping, joining, exited,
  StopperPc, polling, calling, locking, holding, notifying, disarming, closing, awaiting, finished,
  Mutex, free, main_holds, stopper_holds, woken, BalancerPc, absent, looping, over, after_stopper,
  main_from, after_balancer, stopper_from, balancer_from, Step, signal, main_step, stopper_step,
  balancer_step,
}
use le_kv.Lifecycle.Measure.{era, can_be, runs, holder, Disarmed, IsEnding, main_left, Less}
use le_kv.Lifecycle.Fits.{
  when_free-some, Fits, goes_checking, goes_dozing, goes_joining, goes_sleeping, goes_held,
  goes_told, goes_late, goes_past, not_before,
}

module _ (s s' : Process) (v : IsEnding s) where
  pub place_at : (p : MainPc) → s.main ≡ p → can_be (era s.stopper) p ≡ true
  place_at p e = subst (λ x. can_be (era s.stopper) x ≡ true) e v.place

  pub lock_at : (p : MainPc) → s.main ≡ p → s.mutex ≡ holder (era s.stopper) p
  lock_at p e = subst (λ x. s.mutex ≡ holder (era s.stopper) x) e v.lock

  cannot : {p : MainPc} → can_be (era s.stopper) p ≢ true → s.main ≡ p → Less s s'
  cannot {p} never e = absurd (never (place_at p e))

  -- `main` moves on while the flag stays.
  moves :
      (p : MainPc) (x : Mutex)
      → Fits (era s.stopper) p x
      → main_left p < main_left s.main
      → some (record s { mutex = x; main = p }) ≡ some s'
      → Less s s'
  moves p x (c, h) less e =
      some-elim (Less s) (record s { mutex = x; main = p }) s' e
        (
          record {
            signalled = v.signalled;
            place = c;
            flag = v.flag;
            lock = h;
            disarmed = v.disarmed;
          },
          omega arith,
        )

  main_from-Less :
      (p : MainPc) (started : Bool) → s.main ≡ p → main_from p started s ≡ some s' → Less s s'
  unfolding main_from after_stopper
  main_from-Less starting started p e = cannot (not_before (era s.stopper)).0 p
  main_from-Less flagging started p e = cannot (not_before (era s.stopper)).1 p
  main_from-Less arming started p e = cannot (not_before (era s.stopper)).2 p
  main_from-Less waiting started p e =
      let (unlocked, f) = when_free-some s.mutex _ s' e in
      moves checking main_holds
        (goes_checking (era s.stopper) (place_at waiting p) (sym (lock_at waiting p) ∙ unlocked))
        (rw p (omega arith)) f
  main_from-Less checking started p e = checks s.running refl e
    where
      checks :
          (r : Bool)
          → s.running ≡ r
          → some
              (if r then record s { main = dozing } else record s { mutex = free; main = joining })
            ≡ some s'
          → Less s s'
      checks true on f =
          let (c, h) = goes_dozing (era s.stopper) (place_at checking p) (sym v.flag ∙ on) in
          moves dozing s.mutex (c, lock_at checking p ∙ h) (rw p (omega arith)) f
      checks false off f =
          moves joining free (goes_joining (era s.stopper) (place_at checking p) (sym v.flag ∙ off))
            (rw p (omega arith)) f
  main_from-Less dozing started p e =
      moves sleeping free (goes_sleeping (era s.stopper) (place_at dozing p)) (rw p (omega arith)) e
  main_from-Less sleeping started p e = absurd (ground (arith, e))
  main_from-Less joining started p e = joins s.stopper refl e
    where
      joins : (q : StopperPc) → s.stopper ≡ q → after_stopper q s ≡ some s' → Less s s'
      joins finished q f =
          let unlocked = subst (λ x. s.mutex ≡ holder (era x) joining) q (lock_at joining p) in
          moves exited s.mutex (subst (λ x. Fits (era x) exited s.mutex) (sym q) (refl, unlocked))
            (rw p (omega arith)) f
      joins polling q f = absurd (ground (arith, f))
      joins calling q f = absurd (ground (arith, f))
      joins locking q f = absurd (ground (arith, f))
      joins holding q f = absurd (ground (arith, f))
      joins notifying q f = absurd (ground (arith, f))
      joins disarming q f = absurd (ground (arith, f))
      joins closing q f = absurd (ground (arith, f))
      joins awaiting q f = absurd (ground (arith, f))
  main_from-Less exited started p e = absurd (ground (arith, e))

  -- What holds at a place of the stop thread.
  pub ending_at :
      (p : StopperPc)
      → s.stopper ≡ p
      → (can_be (era p) s.main ≡ true)
        × (s.running ≡ runs (era p))
        × (s.mutex ≡ holder (era p) s.main)
        × Disarmed p s.balancer_running
  ending_at p e =
      subst
        (λ x.
          (can_be (era x) s.main ≡ true)
          × (s.running ≡ runs (era x))
          × (s.mutex ≡ holder (era x) s.main)
          × Disarmed x s.balancer_running)
        e (v.place, v.flag, v.lock, v.disarmed)

  stopper_from-Less : (p : StopperPc) → s.stopper ≡ p → stopper_from p s ≡ some s' → Less s s'
  unfolding stopper_from after_balancer
  stopper_from-Less polling p e =
      let (_on, f) = if-some s.g_stop (record s { stopper = calling }) s' e in
      let (c, r, h, d) = ending_at polling p in
      some-elim (Less s) (record s { stopper = calling }) s' f
        (
          record { signalled = v.signalled; place = c; flag = r; lock = h; disarmed = tt },
          rw p (omega arith),
        )
  stopper_from-Less calling p e =
      let (c, r, h, d) = ending_at calling p in
      some-elim (Less s) _ s' e (
        if-true (Less s) s.running (record s { stopper = locking }) _ r
          (
            record { signalled = v.signalled; place = c; flag = r; lock = h; disarmed = tt },
            rw p (omega arith),
          ))
  stopper_from-Less locking p e =
      let (c, r, h, d) = ending_at locking p in
      let (unlocked, f) = when_free-some s.mutex _ s' e in
      let (c', h') = goes_held s.main c (sym h ∙ unlocked) in
      some-elim (Less s) (record s { mutex = stopper_holds; stopper = holding }) s' f
        (
          record { signalled = v.signalled; place = c'; flag = r; lock = h'; disarmed = tt },
          rw p (omega arith),
        )
  stopper_from-Less holding p e =
      let (c, r, h, d) = ending_at holding p in
      let (c', h') = goes_told s.main c in
      some-elim (Less s) (record s { mutex = free; running = false; stopper = notifying }) s' e
        (
          record { signalled = v.signalled; place = c'; flag = refl; lock = h'; disarmed = tt },
          rw p (omega arith),
        )
  stopper_from-Less notifying p e =
      let (c, r, h, d) = ending_at notifying p in
      let ((c', h'), less) = goes_late s.main c in
      some-elim (Less s) (record s { main = woken s.main; stopper = disarming }) s' e
        (
          record { signalled = v.signalled; place = c'; flag = r; lock = h ∙ h'; disarmed = tt },
          rw p (omega (arith, less)),
        )
  stopper_from-Less disarming p e =
      let (c, r, h, d) = ending_at disarming p in
      some-elim (Less s) (record s { balancer_running = false; stopper = closing }) s' e
        (
          record { signalled = v.signalled; place = c; flag = r; lock = h; disarmed = refl },
          rw p (omega arith),
        )
  stopper_from-Less closing p e =
      let (c, r, h, d) = ending_at closing p in
      some-elim (Less s) (record s { stopper = awaiting }) s' e
        (
          record { signalled = v.signalled; place = c; flag = r; lock = h; disarmed = d },
          rw p (omega arith),
        )
  stopper_from-Less awaiting p e = joins s.balancer e
    where
      ends : some (record s { stopper = finished }) ≡ some s' → Less s s'
      ends f =
          let (c, r, h, d) = ending_at awaiting p in
          let (c', h') = goes_past s.main c in
          some-elim (Less s) (record s { stopper = finished }) s' f
            (
              record { signalled = v.signalled; place = c'; flag = r; lock = h ∙ h'; disarmed = d },
              rw p (omega arith),
            )

      joins : (b : BalancerPc) → after_balancer b s ≡ some s' → Less s s'
      joins absent f = ends f
      joins looping f = absurd (ground (arith, f))
      joins over f = ends f
  stopper_from-Less finished p e = absurd (ground (arith, e))

  balancer_from-Less : (p : BalancerPc) → s.balancer ≡ p → balancer_from p s ≡ some s' → Less s s'
  unfolding balancer_from
  balancer_from-Less absent p e = absurd (ground (arith, e))
  balancer_from-Less over p e = absurd (ground (arith, e))
  balancer_from-Less looping p e =
      let (_off, f) = if-none s.balancer_running (record s { balancer = over }) s' e in
      some-elim (Less s) (record s { balancer = over }) s' f
        (
          record {
            signalled = v.signalled;
            place = v.place;
            flag = v.flag;
            lock = v.lock;
            disarmed = v.disarmed;
          },
          rw p (omega arith),
        )

  pub Step-Less : Step s s' → Less s s'
  Step-Less (signal q e) = let on = v.signalled in absurd (ground arith)
  Step-Less (main_step started e) = main_from-Less s.main started refl e
  Step-Less (stopper_step e) = stopper_from-Less s.stopper refl e
  Step-Less (balancer_step e) = balancer_from-Less s.balancer refl e
