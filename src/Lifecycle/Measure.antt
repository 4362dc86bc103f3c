-- ===== src/Lifecycle/Measure.antt =====
-- The steps that are left once SIGINT has come to a node that waits in Run.
use le_kv.Base.{ℕ, ◌+◌, ◌<◌, Bool, true, false, ◌≡◌}
use le_kv.Lifecycle.{
  Process, MainPc, waiting, checking, dozing, sleeping, joining, exited, StopperPc, polling,
  calling, locking, holding, notifying, disarming, closing, awaiting, finished, Mutex, free,
  main_holds, stopper_holds, BalancerPc, looping,
}

-- How far Stop has come: before it has the mutex, with it, before the notification, behind it, and
-- behind the whole of Stop.
pub data Era : Type 0 where
  early : Era
  held : Era
  told : Era
  late : Era
  past : Era

abbrev pub era : StopperPc → Era
era polling = early
era calling = early
era locking = early
era holding = held
era notifying = told
era disarming = late
era closing = late
era awaiting = late
era finished = past

-- `main` is in the wait of Run.
abbrev pub in_wait : MainPc → Bool
in_wait waiting = true
in_wait checking = true
in_wait dozing = true
in_wait sleeping = true
in_wait _ = false

-- Where `main` can be: it does not go to sleep when `running_` is false, and does not sleep on behind
-- the notification.
abbrev pub can_be : Era → MainPc → Bool
can_be early m = in_wait m
can_be held waiting = true
can_be held sleeping = true
can_be told waiting = true
can_be told checking = true
can_be told sleeping = true
can_be told joining = true
can_be late waiting = true
can_be late checking = true
can_be late joining = true
can_be past waiting = true
can_be past checking = true
can_be past joining = true
can_be past exited = true
can_be _ _ = false

abbrev pub runs : Era → Bool
runs early = true
runs held = true
runs _ = false

abbrev pub main_has : MainPc → Mutex
main_has checking = main_holds
main_has dozing = main_holds
main_has _ = free

abbrev pub holder : Era → MainPc → Mutex
holder held m = stopper_holds
holder _ m = main_has m

-- `balancer_running_` is reset.
abbrev pub Disarmed : StopperPc → Bool → Type 0
Disarmed closing b = b ≡ false
Disarmed awaiting b = b ≡ false
Disarmed finished b = b ≡ false
Disarmed _ b = Unit

-- What holds once the signal has come.
pub record IsEnding (s : Process) : Type 0 where
  pub signalled : s.g_stop ≡ true
  pub place : can_be (era s.stopper) s.main ≡ true
  pub flag : s.running ≡ runs (era s.stopper)
  pub lock : s.mutex ≡ holder (era s.stopper) s.main
  pub disarmed : Disarmed s.stopper s.balancer_running

abbrev pub main_left : MainPc → ℕ
main_left waiting = 6
main_left checking = 5
main_left dozing = 4
main_left sleeping = 3
main_left joining = 1
main_left _ = 0

abbrev pub stopper_left : StopperPc → ℕ
stopper_left polling = 11
stopper_left calling = 10
stopper_left locking = 9
stopper_left holding = 8
stopper_left notifying = 7
stopper_left disarming = 3
stopper_left closing = 2
stopper_left awaiting = 1
stopper_left finished = 0

abbrev pub balancer_left : BalancerPc → ℕ
balancer_left looping = 1
balancer_left _ = 0

-- The steps that are left, once the signal has come.
abbrev pub left : Process → ℕ
left s = main_left s.main + stopper_left s.stopper + balancer_left s.balancer

abbrev pub Less : Process → Process → Type 0
Less s s' = IsEnding s' × (left s' < left s)
