-- ===== src/RpcServer/Stops.antt =====
-- Stop returns.
use le_kv.Base.{
  ℕ, suc, ◌+◌, ◌≤◌, Bool, true, false, none, some, List, [], ◌∷◌, ◌≡◌, ◌⊎◌, refl, ap, ◌∙◌, arith,
  get_elem?, set, inl, inr, Bool-cases,
}
use mathlib.Core.Path.{subst}
use le_kv.RpcServer.{
  StopPc, not_called, told, deaf, cleared, accept_joined, returned, AcceptPc, testing, accepting,
  failed, accepted, listed, ended, Worker, RpcServer, is_gone, all_gone, after_accept, stop_from,
  accept_from, next_pc, fds_after, worker_from, Step, stop_step, accept_step, worker_step, Reach,
  moved,
}
use le_kv.RpcServer.Invariant.{is_idle, is_hearing, keeps_fds, is_serving, Joined}
use le_kv.RpcServer.Shut.{Reach-IsSound, CanEnd, Reach-CanEnd}
use le_kv.RpcServer.Measure.{work, Step-Less}

-- A step that no peer has to let happen: accept fails on a socket that is closed, and a round ends on a
-- connection that is shut down.
pub data Forced (erases : Bool) (s s' : RpcServer) : Type 0 where
  stop_goes : stop_from s.stop s ≡ some s' → Forced erases s s'
  accept_goes : s.listening ≡ false → accept_from s.accept none s ≡ some s' → Forced erases s s'
  worker_goes :
      (i : ℕ) (w : Worker)
      → get_elem? s.workers i ≡ some w
      → (is_serving w ≡ false) ⊎ (s.shut w.client_fd ≡ true)
      → worker_from erases false i s ≡ some s'
      → Forced erases s s'

-- So many steps of the threads.
pub data Run (erases : Bool) (s : RpcServer) : ℕ → RpcServer → Type 0 where
  here : Run erases s 0 s
  then_step :
      {k : ℕ} {s1 s' : RpcServer} → Run erases s k s1 → Step erases s1 s' → Run erases s (suc k) s'

-- Stop has returned, and every thread has ended.
abbrev pub HasStopped : RpcServer → Type 0
HasStopped s = (s.stop ≡ returned) × (s.accept ≡ ended) × (s.workers ≡ [])

-- A step that needs no peer.
abbrev pub GoesOn : Bool → RpcServer → Type 0
GoesOn erases s = (s' : RpcServer) × Step erases s s' × Forced erases s s'

all_gone-lives :
    (ws : List Worker)
    → all_gone ws ≡ false
    → (i : ℕ) × (w : Worker) × (get_elem? ws i ≡ some w) × (is_gone w ≡ false)
unfolding all_gone
all_gone-lives [] e = cc
all_gone-lives (w ∷ ws) e = elim (Bool-cases (is_gone w)) [
  | inl over ↦ let (i, x, g, l) = all_gone-lives ws (rw over at e) in (suc i, x, g, l)
  | inr lives ↦ (0, w, refl, lives)
]

module _ (erases : Bool) (s : RpcServer) where
  go_by_stop : (s' : RpcServer) → stop_from s.stop s ≡ some s' → GoesOn erases s
  go_by_stop s' e = (s', stop_step e, stop_goes e)

  go_by_accept :
      (s' : RpcServer)
      → s.listening ≡ false
      → accept_from s.accept none s ≡ some s'
      → GoesOn erases s
  go_by_accept s' q e = (s', accept_step none e, accept_goes q e)

  accept_runs :
      (a : AcceptPc) → s.accept ≡ a → s.listening ≡ false → (s.accept ≡ ended) ⊎ GoesOn erases s
  unfolding accept_from
  accept_runs testing p q = inr (go_by_accept _ q (ap (λ a. accept_from a none s) p))
  accept_runs accepting p q = inr (go_by_accept _ q (ap (λ a. accept_from a none s) p))
  accept_runs failed p q = inr (go_by_accept _ q (ap (λ a. accept_from a none s) p))
  accept_runs (accepted fd) p q = inr (go_by_accept _ q (ap (λ a. accept_from a none s) p))
  accept_runs (listed fd) p q = inr (go_by_accept _ q (ap (λ a. accept_from a none s) p))
  accept_runs ended p q = inl p

  worker_runs :
      (i : ℕ) (w : Worker)
      → get_elem? s.workers i ≡ some w
      → is_gone w ≡ false
      → CanEnd false s w
      → GoesOn erases s
  unfolding worker_from
  worker_runs i w g lives c =
      let e : worker_from erases false i s
          ≡ some (record s {
            workers = set s.workers i (record w { pc = next_pc s.running false w.pc });
            client_fds = fds_after erases w s.client_fds;
          }) =
        rw (g, lives) refl in
      (_, worker_step false i e, worker_goes i w g c e)

  module _ (r : Reach erases s) (off : s.running ≡ false) where
    goes_on : (p : StopPc) → s.stop ≡ p → HasStopped s ⊎ GoesOn erases s
    unfolding stop_from after_accept
    goes_on not_called e =
        let on = (Reach-IsSound erases r).runs ∙ ap is_idle e in absurd (ground arith)
    goes_on told e = inr (go_by_stop _ (ap (λ p. stop_from p s) e))
    goes_on deaf e = inr (go_by_stop _ (ap (λ p. stop_from p s) e))
    goes_on cleared e =
        let deaf_now = (Reach-IsSound erases r).hears ∙ ap is_hearing e in
        elim (accept_runs s.accept refl deaf_now) [
          | inl over ↦ inr (go_by_stop (record s { stop = accept_joined }) (rw (e, over) refl))
          | inr goes ↦ inr goes
        ]
    goes_on accept_joined e = elim (Bool-cases (all_gone s.workers)) [
      | inl over ↦ inr (go_by_stop (record s { workers = []; stop = returned }) (rw (e, over) refl))
      | inr waits ↦
          let (i, w, g, lives) = all_gone-lives s.workers waits in
          let c = subst (λ b. CanEnd b s w) (ap keeps_fds e) (Reach-CanEnd erases s i w r g) in
          inr (worker_runs i w g lives c)
    ]
    goes_on returned e =
        let (over, none_left) =
          subst (λ p. Joined p s.accept s.workers) e (Reach-IsSound erases r).joined in
        inl (e, over, none_left)

Run-Reach :
    (erases : Bool) {s s' : RpcServer} {k : ℕ}
    → Reach erases s
    → Run erases s k s'
    → Reach erases s'
Run-Reach erases r here = r
Run-Reach erases r (then_step run st) = moved (Run-Reach erases r run) st

Run-work :
    (erases : Bool) {s s' : RpcServer} {k : ℕ}
    → s.running ≡ false
    → Run erases s k s'
    → (s'.running ≡ false) × (k + work s' ≤ work s)
Run-work erases off here = (off, omega arith)
Run-work erases {s} {s'} off (then_step {k} {s1} run st) =
    let (off1, less) = Run-work erases off run in
    let (off', one) = Step-Less s1 s' off1 erases st in (off', omega arith)

-- Once Stop has set `running_` to false on a server that was started, however the threads interleave,
-- no more steps are taken than `work` counts, and at each point Stop has returned with the accept
-- thread and every worker ended, or a thread can go on without a peer.
pub stop_returns :
    (erases : Bool) (s s' : RpcServer) (k : ℕ)
    → Reach erases s
    → s.running ≡ false
    → Run erases s k s'
    → (k + work s' ≤ work s) × (HasStopped s' ⊎ GoesOn erases s')
stop_returns erases s s' k r off run =
    let (off', bound) = Run-work erases off run in
    (bound, goes_on erases s' (Run-Reach erases r run) off' s'.stop refl)
