-- ===== src/RpcServer/Tests.antt =====
-- A server with one client, which is stopped while the worker of the client waits in recv.
use le_kv.Base.{◌+◌, ◌≤◌, true, false, none, some, [], ◌∷◌, refl, ltb, ◌==◌, if◌then◌else◌, ◌⊎◌}
use le_kv.RpcServer.{
  RpcServer, Worker, Opening, new_server, server_start, told, deaf, cleared, testing, accepting,
  accepted, listed, entering, serving, count, stop_from, accept_from, worker_from, next_pc,
  fds_after, stop_step, accept_step, worker_step, Reach, started, moved,
}
use le_kv.RpcServer.Invariant.{keeps_fds}
use le_kv.RpcServer.Shut.{CanEnd, Reach-CanEnd}
use le_kv.RpcServer.Measure.{work}
use le_kv.RpcServer.Stops.{Run, here, then_step, HasStopped, GoesOn, stop_returns}

abbrev opened : Opening
opened = record { socket = true; bind = true; listen = true }

abbrev s0 : RpcServer
s0 = record new_server { running = true; listening = true; accept = testing }

abbrev s1 : RpcServer
s1 = record s0 { accept = accepting }

abbrev s2 : RpcServer
s2 = record s1 { accept = accepted 5; shut = λ c. if c == 5 then false else s1.shut c }

abbrev s3 : RpcServer
s3 = record s2 { accept = listed 5; client_fds = 5 ∷ [] }

abbrev s4 : RpcServer
s4 = record s3 { accept = testing; workers = record { client_fd = 5; pc = entering } ∷ [] }

abbrev worker_5 : Worker
worker_5 = record { client_fd = 5; pc = serving }

abbrev s5 : RpcServer
s5 = record s4 { workers = worker_5 ∷ [] }

abbrev s6 : RpcServer
s6 = record s5 { running = false; stop = told }

abbrev s7 : RpcServer
s7 = record s6 { listening = false; stop = deaf }

abbrev s8 : RpcServer
s8 = record s7 {
  shut = λ fd. if ltb 0 (count fd (5 ∷ [])) then true else s7.shut fd;
  client_fds = [];
  stop = cleared;
}

Reach-s6 : Reach true s6
unfolding server_start accept_from worker_from next_pc fds_after stop_from
Reach-s6 =
    moved
      (moved
        (moved
          (moved
            (moved (moved (started opened refl) (accept_step none refl))
              (accept_step (some 5) refl))
            (accept_step none refl))
          (accept_step none refl))
        (worker_step true 0 refl))
      (stop_step refl)

two_steps : Run true s6 2 s8
unfolding stop_from
two_steps = then_step (then_step here (stop_step refl)) (stop_step refl)

Reach-s8 : Reach true s8
unfolding stop_from
Reach-s8 = moved (moved Reach-s6 (stop_step refl)) (stop_step refl)

Reach-CanEnd_example : CanEnd (keeps_fds s8.stop) s8 worker_5
Reach-CanEnd_example = Reach-CanEnd true s8 0 worker_5 Reach-s8 refl

stop_returns_example : (2 + work s8 ≤ work s6) × (HasStopped s8 ⊎ GoesOn true s8)
stop_returns_example = stop_returns true s6 s8 2 Reach-s6 refl two_steps
