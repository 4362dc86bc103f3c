-- ===== src/Lifecycle/Tests.antt =====
-- A node that is stopped while it runs, and one that is stopped too early.
use le_kv.Base.{◌≤◌, true, false, ◌≡◌, ◌≢◌, refl, ◌⊎◌}
use le_kv.Lifecycle.{
  Process, free, stopper_holds, sleeping, holding, when_free, flagging, waiting, exited, polling,
  finished, absent, looping, main_from, stopper_from, main_step, stopper_step, Run, here, then_step,
}
use le_kv.Lifecycle.Ends.{GoesOn, signal-ends}
use le_kv.Lifecycle.Lost.{lost_stop}

abbrev serving : Process
serving = record {
  is_master = true;
  g_stop = true;
  running = true;
  mutex = free;
  balancer_running = true;
  main = waiting;
  stopper = polling;
  balancer = looping;
}

abbrev stopping : Process
stopping = record serving { mutex = stopper_holds; main = sleeping; stopper = holding }

six_steps : Run serving 6 stopping
unfolding main_from stopper_from when_free
six_steps =
    then_step
      (then_step
        (then_step
          (then_step (then_step (then_step here (main_step true refl)) (stopper_step refl))
            (main_step true refl))
          (stopper_step refl))
        (main_step true refl))
      (stopper_step refl)

signal-ends_example : (6 ≤ 18) × ((stopping.main ≡ exited) ⊎ GoesOn stopping)
signal-ends_example = signal-ends serving stopping 6 refl refl refl refl refl six_steps

-- Stop came back, since `running_` was not set yet.
abbrev stopped_early : Process
stopped_early = record {
  is_master = true;
  g_stop = true;
  running = false;
  mutex = free;
  balancer_running = false;
  main = flagging;
  stopper = finished;
  balancer = absent;
}

abbrev for_ever : Process
for_ever = record stopped_early {
  running = true;
  balancer_running = true;
  main = waiting;
  balancer = looping;
}

goes_on_running : Run stopped_early 2 for_ever
unfolding main_from
goes_on_running = then_step (then_step here (main_step true refl)) (main_step true refl)

lost_stop_example : for_ever.main ≢ exited
lost_stop_example = lost_stop stopped_early for_ever 2 refl refl goes_on_running
