-- ===== src/RpcServer/Measure.antt =====
-- Once `running_` is false, each step of a server's threads leaves less to do.
use le_kv.Base.{
  some-elim, if-some, if-false, ℕ, ◌+◌, ◌<◌, Bool, true, false, Option, none, some, [], ◌∷◌, ◌++◌,
  ◌==◌, ◌≡◌, refl, arith, set, if◌then◌else◌, ltb,
}
use le_kv.RpcServer.{
  StopPc, not_called, told, deaf, cleared, accept_joined, returned, AcceptPc, testing, accepting,
  failed, accepted, listed, ended, WorkerPc, entering, serving, closing, leaving, gone, Worker,
  RpcServer, count, is_gone, all_gone, after_accept, stop_from, accept_from, next_pc, fds_after,
  worker_from, Step, stop_step, accept_step, worker_step,
}
use le_kv.RpcServer.Totals.{total, total-append, total-set}
use le_kv.RpcServer.Invariant.{}
use le_kv.RpcServer.Work.{worker_found}

-- The steps that a worker has left.
abbrev pub worker_work : Worker → ℕ
worker_work w = elim w.pc [ entering ↦ 3 | serving ↦ 4 | closing ↦ 2 | leaving ↦ 1 | gone ↦ 0 ]

-- The steps that the accept thread has left, and those of a worker that it may start.
abbrev pub accept_work : AcceptPc → ℕ
accept_work testing = 1
accept_work accepting = 7
accept_work failed = 1
accept_work (accepted fd) = 6
accept_work (listed fd) = 5
accept_work ended = 0

-- The steps that Stop has left.
abbrev pub stop_work : StopPc → ℕ
stop_work not_called = 5
stop_work told = 4
stop_work deaf = 3
stop_work cleared = 2
stop_work accept_joined = 1
stop_work returned = 0

-- The steps that the threads have left, once `running_` is false.
abbrev pub work : RpcServer → ℕ
work s = total worker_work s.workers + accept_work s.accept + stop_work s.stop

-- What a step leaves to do.
abbrev Less : RpcServer → RpcServer → Type 0
Less s s' = (s'.running ≡ false) × (work s' < work s)

module _ (s s' : RpcServer) (off : s.running ≡ false) where
  stop_from-Less : (p : StopPc) → s.stop ≡ p → stop_from p s ≡ some s' → Less s s'
  unfolding stop_from after_accept
  stop_from-Less not_called p e =
      some-elim (Less s) _ s' e
        (if-false (Less s) s.running _ (record s { stop = returned }) off (off, rw p (omega arith)))
  stop_from-Less told p e =
      some-elim (Less s) (record s { listening = false; stop = deaf }) s' e
        (off, rw p (omega arith))
  stop_from-Less deaf p e =
      some-elim (Less s)
        (record s {
          shut = λ fd. if ltb 0 (count fd s.client_fds) then true else s.shut fd;
          client_fds = [];
          stop = cleared;
        })
        s' e (off, rw p (omega arith))
  stop_from-Less cleared p e = joins s.accept e
    where
      joins : (a : AcceptPc) → after_accept a s ≡ some s' → Less s s'
      joins testing f = absurd (ground (arith, f))
      joins accepting f = absurd (ground (arith, f))
      joins failed f = absurd (ground (arith, f))
      joins (accepted fd) f = absurd (ground (arith, f))
      joins (listed fd) f = absurd (ground (arith, f))
      joins ended f =
          some-elim (Less s) (record s { stop = accept_joined }) s' f (off, rw p (omega arith))
  stop_from-Less accept_joined p e =
      let (over, f) =
        if-some (all_gone s.workers) (record s { workers = []; stop = returned }) s' e in
      some-elim (Less s) (record s { workers = []; stop = returned }) s' f (off, rw p (omega arith))
  stop_from-Less returned p e = absurd (ground (arith, e))

  accept_from-Less :
      (a : AcceptPc) (r : Option ℕ) → s.accept ≡ a → accept_from a r s ≡ some s' → Less s s'
  unfolding accept_from
  accept_from-Less testing r p e =
      some-elim (Less s) (record s { accept = if s.running then accepting else ended }) s' e
        (off, rw (off, p) (omega arith))
  accept_from-Less accepting none p e =
      some-elim (Less s) (record s { accept = failed }) s' e (off, rw p (omega arith))
  accept_from-Less accepting (some fd) p e =
      let now = record s {
        shut = λ c. if c == fd then false else s.shut c;
        accept = accepted fd;
      } in
      let (hearing, f) = if-some s.listening now s' e in
      some-elim (Less s) now s' f (off, rw p (omega arith))
  accept_from-Less failed r p e =
      some-elim (Less s) (record s { accept = if s.running then testing else ended }) s' e
        (off, rw (off, p) (omega arith))
  accept_from-Less (accepted fd) r p e =
      some-elim (Less s) (record s { client_fds = s.client_fds ++ (fd ∷ []); accept = listed fd })
        s' e (off, rw p (omega arith))
  accept_from-Less (listed fd) r p e =
      let w : Worker = record { client_fd = fd; pc = entering } in
      some-elim (Less s) (record s { workers = s.workers ++ (w ∷ []); accept = testing }) s' e
        (off, rw p (omega (arith, total-append worker_work s.workers (w ∷ []))))
  accept_from-Less ended r p e = absurd (ground (arith, e))

  next_pc-less :
      (again : Bool) (w : Worker)
      → is_gone w ≡ false
      → worker_work (record w { pc = next_pc s.running again w.pc }) < worker_work w
  unfolding next_pc
  next_pc-less again w lives = go w.pc refl
    where
      go :
          (p : WorkerPc)
          → w.pc ≡ p
          → worker_work (record w { pc = next_pc s.running again w.pc }) < worker_work w
      go entering e = rw (e, off) (omega arith)
      go serving e = rw e (ground arith)
      go closing e = rw e (omega arith)
      go leaving e = rw e (omega arith)
      go gone e = absurd (ground (arith, rw e at lives))

  worker_from-Less :
      (erases again : Bool) (i : ℕ) → worker_from erases again i s ≡ some s' → Less s s'
  worker_from-Less erases again i e =
      let (w, g, lives, f) = worker_found erases again i s s' e in
      let w' : Worker = record w { pc = next_pc s.running again w.pc } in
      let one = next_pc-less again w lives in
      let sum = total-set worker_work s.workers i w w' g in
      some-elim (Less s)
        (record s { workers = set s.workers i w'; client_fds = fds_after erases w s.client_fds }) s'
        f (off, omega arith)

  pub Step-Less : (erases : Bool) → Step erases s s' → (s'.running ≡ false) × (work s' < work s)
  Step-Less erases (stop_step e) = stop_from-Less s.stop refl e
  Step-Less erases (accept_step r e) = accept_from-Less s.accept r refl e
  Step-Less erases (worker_step again i e) = worker_from-Less erases again i e
