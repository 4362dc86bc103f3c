-- ===== src/RpcServer/Shut.antt =====
-- Stop reaches the connection of every worker.
use le_kv.Base.{
  ℕ, ◌<◌, Bool, true, false, some, ◌≡◌, ◌⊎◌, refl, arith, get_elem?, inl, inr, Bool-cases,
}
use mathlib.Core.Path.{subst}
use le_kv.RpcServer.{
  testing, Worker, RpcServer, count, is_gone, Step, stop_step, accept_step, worker_step, Reach,
  new_server, Opening, started, moved, server_start,
}
use le_kv.RpcServer.Totals.{get_elem?-total}
use le_kv.RpcServer.Invariant.{keeps_fds, holds, is_serving, unshut, IsSound}
use le_kv.RpcServer.Stop.{stop_from-IsSound}
use le_kv.RpcServer.Accept.{accept_from-IsSound}
use le_kv.RpcServer.Work.{worker_from-IsSound}

pub Step-IsSound : (erases : Bool) (s s' : RpcServer) → IsSound s → Step erases s s' → IsSound s'
Step-IsSound erases s s' v (stop_step e) = stop_from-IsSound s s' v s.stop refl e
Step-IsSound erases s s' v (accept_step r e) = accept_from-IsSound s s' v s.accept r refl e
Step-IsSound erases s s' v (worker_step again i e) = worker_from-IsSound s s' v erases again i e

running_server : RpcServer
running_server = record new_server { running = true; listening = true; accept = testing }

started-IsSound : (o : Opening) (s : RpcServer) → server_start o new_server ≡ (true, s) → IsSound s
unfolding server_start running_server
started-IsSound o s e =
    let same : running_server ≡ s = ground (arith, e) in
    subst IsSound same (record {
      runs = refl;
      hears = refl;
      listed_all = λ k fd. omega arith;
      shut_all = λ k. refl;
      joined = tt;
    })

pub Reach-IsSound : (erases : Bool) {s : RpcServer} → Reach erases s → IsSound s
Reach-IsSound erases {s} (started o e) = started-IsSound o s e
Reach-IsSound erases (moved {s} {s'} r st) = Step-IsSound erases s s' (Reach-IsSound erases r) st

-- What lets Stop end a worker: before it empties the list of connections, the list has the worker's;
-- afterwards, no round waits on a connection that was not shut down.
abbrev pub CanEnd : Bool → RpcServer → Worker → Type 0
CanEnd true s w = (is_gone w ≡ true) ⊎ (0 < count w.client_fd s.client_fds)
CanEnd false s w = (is_serving w ≡ false) ⊎ (s.shut w.client_fd ≡ true)

IsSound-CanEnd :
    (s : RpcServer) (v : IsSound s) (i : ℕ) (w : Worker)
    → get_elem? s.workers i ≡ some w
    → (b : Bool) → keeps_fds s.stop ≡ b
    → CanEnd b s w
IsSound-CanEnd s v i w g true e = elim (Bool-cases (is_gone w)) [
  | inl over ↦ inl over
  | inr lives ↦
      let all = v.listed_all e w.client_fd in
      let mine = get_elem?-total (holds w.client_fd) s.workers i w g in
      let one : holds w.client_fd w ≡ 1 = rw lives (ground arith) in inr (omega arith)
]
IsSound-CanEnd s v i w g false e = elim (Bool-cases (is_serving w)) [
  | inl busy ↦ elim (Bool-cases (s.shut w.client_fd)) [
    | inl down ↦ inr down
    | inr up ↦
        let all = v.shut_all e in
        let mine = get_elem?-total (unshut s.shut) s.workers i w g in
        let one : unshut s.shut w ≡ 1 = rw (busy, up) refl in absurd (omega arith)
  ]
  | inr idle ↦ inl idle
]

-- However Stop, AcceptLoop and the workers interleave on a server that was started, and whether or
-- not HandleClient erases its descriptor from `client_fds_`: until Stop empties that list, every
-- worker that has not ended has its connection in it; afterwards, no worker is in a round on a
-- connection that Stop has not shut down.
pub Reach-CanEnd :
    (erases : Bool) (s : RpcServer) (i : ℕ) (w : Worker)
    → Reach erases s
    → get_elem? s.workers i ≡ some w
    → CanEnd (keeps_fds s.stop) s w
Reach-CanEnd erases s i w r g =
    IsSound-CanEnd s (Reach-IsSound erases r) i w g (keeps_fds s.stop) refl
