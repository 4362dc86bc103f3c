-- ===== src/Lifecycle.antt =====
-- How a node ends: Run and Stop of kv/raft_node.cpp, with the thread of lekv.cpp that waits for SIGINT.
pub mod Measure
pub mod Fits
pub mod Steps
pub mod Ends
pub mod Lost
mod Tests
use le_kv.Base.{ℕ, suc, Bool, true, false, Option, none, some, ◌≡◌, if◌then◌else◌}

-- Where `main` is: in Run before the server starts, before `running_` is set, before the balancer is
-- started; in the wait, before it has the mutex (at its start, or woken), with the mutex at the test of
-- `running_`, with the mutex before it sleeps, and asleep; at the join of the stop thread; returned.
pub data MainPc : Type 0 where
  starting : MainPc
  flagging : MainPc
  arming : MainPc
  waiting : MainPc
  checking : MainPc
  dozing : MainPc
  sleeping : MainPc
  joining : MainPc
  exited : MainPc

-- Where the stop thread is: in its loop; in Stop at the test of `running_`, before the mutex, with the
-- mutex, before the notification, before `balancer_running_` is reset, in the server's Stop, and before
-- the balancer is joined; returned.
pub data StopperPc : Type 0 where
  polling : StopperPc
  calling : StopperPc
  locking : StopperPc
  holding : StopperPc
  notifying : StopperPc
  disarming : StopperPc
  closing : StopperPc
  awaiting : StopperPc
  finished : StopperPc

-- Which thread holds `mutex_`.
pub data Mutex : Type 0 where
  free : Mutex
  main_holds : Mutex
  stopper_holds : Mutex

-- The balancer's thread: not started, in BalancerLoop, or at its end.
pub data BalancerPc : Type 0 where
  absent : BalancerPc
  looping : BalancerPc
  over : BalancerPc

-- The members of the node and the flag of lekv.cpp that the threads share, and the threads.
pub record Process : Type 0 where
  pub is_master : Bool
  pub g_stop : Bool
  pub running : Bool
  pub mutex : Mutex
  pub balancer_running : Bool
  pub main : MainPc
  pub stopper : StopperPc
  pub balancer : BalancerPc

-- A lock of the mutex: the next state, if no thread holds it.
unfoldable pub when_free : Mutex → Process → Option Process
when_free free next = some next
when_free _ next = none

-- `cv_.notify_all()`: a thread that sleeps wakes up, and takes the mutex again.
unfoldable pub woken : MainPc → MainPc
woken sleeping = waiting
woken m = m

-- `stop_thread.join()`
unfoldable pub after_stopper : StopperPc → Process → Option Process
after_stopper finished s = some (record s { main = exited })
after_stopper p s = none

-- The next step of Run, and of `main` behind it; `started` is the result of the server's Start. The
-- wait gives up the mutex and sleeps in one step, and wakes only when it is notified.
unfoldable pub main_from : MainPc → Bool → Process → Option Process
unfolding after_stopper when_free
main_from starting started s = some (record s { main = if started then flagging else joining })
main_from flagging started s =
    some (record s { running = true; main = if s.is_master then arming else waiting })
main_from arming started s =
    some (record s { balancer_running = true; balancer = looping; main = waiting })
main_from waiting started s = when_free s.mutex (record s { mutex = main_holds; main = checking })
main_from checking started s =
    some
      (if s.running then record s { main = dozing } else record s { mutex = free; main = joining })
main_from dozing started s = some (record s { mutex = free; main = sleeping })
main_from sleeping started s = none
main_from joining started s = after_stopper s.stopper s
main_from exited started s = none

-- `if (balancer_thread_.joinable()) { balancer_thread_.join(); }`, and what Stop closes behind it.
unfoldable pub after_balancer : BalancerPc → Process → Option Process
after_balancer looping s = none
after_balancer b s = some (record s { stopper = finished })

-- The next step of the stop thread. The step from `closing` is the return of the server's Stop, whose
-- own threads are modelled with the server.
unfoldable pub stopper_from : StopperPc → Process → Option Process
unfolding after_balancer when_free woken
stopper_from polling s = if s.g_stop then some (record s { stopper = calling }) else none
stopper_from calling s =
    some (if s.running then record s { stopper = locking } else record s { stopper = finished })
stopper_from locking s = when_free s.mutex (record s { mutex = stopper_holds; stopper = holding })
stopper_from holding s = some (record s { mutex = free; running = false; stopper = notifying })
stopper_from notifying s = some (record s { main = woken s.main; stopper = disarming })
stopper_from disarming s = some (record s { balancer_running = false; stopper = closing })
stopper_from closing s = some (record s { stopper = awaiting })
stopper_from awaiting s = after_balancer s.balancer s
stopper_from finished s = none

-- The end of BalancerLoop; its rounds change none of these members.
unfoldable pub balancer_from : BalancerPc → Process → Option Process
balancer_from looping s = if s.balancer_running then none else some (record s { balancer = over })
balancer_from b s = none

-- A step of one of the threads, or the signal.
pub data Step (s s' : Process) : Type 0 where
  signal : s.g_stop ≡ false → record s { g_stop = true } ≡ s' → Step s s'
  main_step : (started : Bool) → main_from s.main started s ≡ some s' → Step s s'
  stopper_step : stopper_from s.stopper s ≡ some s' → Step s s'
  balancer_step : balancer_from s.balancer s ≡ some s' → Step s s'

-- So many steps.
pub data Run (s : Process) : ℕ → Process → Type 0 where
  here : Run s 0 s
  then_step : {k : ℕ} {s1 s' : Process} → Run s k s1 → Step s1 s' → Run s (suc k) s'
