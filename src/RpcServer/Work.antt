-- ===== src/RpcServer/Work.antt =====
-- The steps of HandleClient keep what holds between the steps.
use le_kv.Base.{
  some-elim, if-none, ℕ, ◌+◌, ◌≤◌, Bool, true, false, Option, none, some, List, ◌≡◌, refl, ap, ◌∙◌,
  arith, get_elem?, set, if◌then◌else◌, ◌>>=◌,
}
use le_kv.RpcServer.{
  StopPc, not_called, told, deaf, cleared, accept_joined, returned, AcceptPc, WorkerPc, entering,
  serving, closing, leaving, gone, Worker, RpcServer, count, is_gone, next_pc, fds_after,
  worker_from,
}
use le_kv.RpcServer.Totals.{total-set, count-erase_le}
use le_kv.RpcServer.Invariant.{is_idle, keeps_fds, holds, unshut, Joined, IsSound}

module _ (erases : Bool) (again : Bool) (w : Worker) where
  -- The worker after a step.
  abbrev after : Bool → Worker
  after running = record w { pc = next_pc running again w.pc }

  -- A connection leaves the list with its worker.
  holds-after :
      (running : Bool) (fd : ℕ) (cs : List ℕ)
      → holds fd (after running) + count fd cs ≤ holds fd w + count fd (fds_after erases w cs)
  unfolding next_pc fds_after
  holds-after running fd cs = go w.pc refl erases
    where
      go :
          (p : WorkerPc)
          → w.pc ≡ p
          → (b : Bool)
          → holds fd (after running) + count fd cs ≤ holds fd w + count fd (fds_after b w cs)
      go entering e b = rw e (ground arith)
      go serving e b = rw e (ground arith)
      go closing e b = rw e (ground arith)
      go leaving e true = rw e (omega (arith, count-erase_le fd w.client_fd cs))
      go leaving e false = rw e (omega arith)
      go gone e b = rw e (ground arith)

  -- Once `running_` is false, no round begins.
  unshut-after : (shut : ℕ → Bool) → unshut shut (after false) ≤ unshut shut w
  unfolding next_pc
  unshut-after shut = go w.pc refl
    where
      go : (p : WorkerPc) → w.pc ≡ p → unshut shut (after false) ≤ unshut shut w
      go entering e = rw e (omega arith)
      go serving e = rw e (ground arith)
      go closing e = rw e (omega arith)
      go leaving e = rw e (omega arith)
      go gone e = rw e (omega arith)

Joined-set :
    (p : StopPc) (a : AcceptPc) (ws : List Worker) (i : ℕ) (w : Worker)
    → Joined p a ws
    → Joined p a (set ws i w)
Joined-set not_called a ws i w j = tt
Joined-set told a ws i w j = tt
Joined-set deaf a ws i w j = tt
Joined-set cleared a ws i w j = tt
Joined-set accept_joined a ws i w j = j
Joined-set returned a ws i w j = (j.0, ap (λ x. set x i w) j.1)

idle-cleared : (p : StopPc) → keeps_fds p ≡ false → is_idle p ≡ false
idle-cleared not_called e = cc
idle-cleared told e = cc
idle-cleared deaf e = cc
idle-cleared cleared e = refl
idle-cleared accept_joined e = refl
idle-cleared returned e = refl

-- Of a step of a worker.
pub worker_found :
    (erases again : Bool) (i : ℕ) (s s' : RpcServer)
    → worker_from erases again i s ≡ some s'
    → (w : Worker) × (get_elem? s.workers i ≡ some w)
      × (is_gone w ≡ false)
      × (some (record s {
        workers = set s.workers i (record w { pc = next_pc s.running again w.pc });
        client_fds = fds_after erases w s.client_fds;
      })
          ≡ some s')
unfolding worker_from
worker_found erases again i s s' e = go (get_elem? s.workers i) refl e
  where
    go :
        (r : Option Worker)
        → get_elem? s.workers i ≡ r
        → (do
          w ← r
          if is_gone w
              then none
              else some (record s {
                workers = set s.workers i (record w { pc = next_pc s.running again w.pc });
                client_fds = fds_after erases w s.client_fds;
              }))
          ≡ some s'
        → (w : Worker) × (get_elem? s.workers i ≡ some w)
          × (is_gone w ≡ false)
          × (some (record s {
            workers = set s.workers i (record w { pc = next_pc s.running again w.pc });
            client_fds = fds_after erases w s.client_fds;
          })
              ≡ some s')
    go none g f = cc
    go (some w) g f = let (lives, same) = if-none (is_gone w) _ s' f in (w, g, lives, same)

module _ (s s' : RpcServer) (v : IsSound s) where
  pub worker_from-IsSound :
      (erases again : Bool) (i : ℕ) → worker_from erases again i s ≡ some s' → IsSound s'
  unfolding worker_from
  worker_from-IsSound erases again i e =
      let (w, g, lives, f) = worker_found erases again i s s' e in
      let w' = after erases again w s.running in
      some-elim IsSound
        (record s { workers = set s.workers i w'; client_fds = fds_after erases w s.client_fds }) s'
        f
        (record {
          runs = v.runs;
          hears = v.hears;
          listed_all = λ k fd.
              let all = v.listed_all k fd in
              let one = holds-after erases again w s.running fd s.client_fds in
              let sum = total-set (holds fd) s.workers i w w' g in omega arith;
          shut_all = λ k.
              let all = v.shut_all k in
              let off = v.runs ∙ idle-cleared s.stop k in
              let one = unshut-after erases again w s.shut in
              let sum = total-set (unshut s.shut) s.workers i w (after erases again w false) g in
              rw off (omega arith);
          joined = Joined-set s.stop s.accept s.workers i w' v.joined;
        })
