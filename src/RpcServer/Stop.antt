-- ===== src/RpcServer/Stop.antt =====
-- The steps of Stop keep what holds between the steps.
use le_kv.Base.{
  some-elim, ℕ, ◌≤◌, Bool, true, false, some, List, [], ◌∷◌, ◌≡◌, refl, ap, ◌∙◌, arith,
  if◌then◌else◌, inl, inr, Bool-cases, ltb,
}
use mathlib.Core.Path.{subst}
use le_kv.RpcServer.{
  StopPc, not_called, told, deaf, cleared, accept_joined, returned, AcceptPc, testing, accepting,
  failed, accepted, listed, ended, WorkerPc, entering, serving, closing, leaving, gone, Worker,
  RpcServer, count, all_gone, after_accept, stop_from,
}
use le_kv.RpcServer.Totals.{total}
use le_kv.RpcServer.Invariant.{is_idle, is_hearing, keeps_fds, holds, unshut, Joined, IsSound}

-- The connections that Stop shuts down.
abbrev shut_in : List ℕ → (ℕ → Bool) → ℕ → Bool
shut_in cs shut fd = if ltb 0 (count fd cs) then true else shut fd

unshut-listed :
    (w : Worker) (cs : List ℕ) (shut : ℕ → Bool)
    → holds w.client_fd w ≤ count w.client_fd cs
    → unshut (shut_in cs shut) w ≡ 0
unshut-listed w cs shut h = go w.pc refl
  where
    go : (p : WorkerPc) → w.pc ≡ p → unshut (shut_in cs shut) w ≡ 0
    go entering e = rw e refl
    go serving e = let mine = rw e at h in rw e (ground arith)
    go closing e = rw e refl
    go leaving e = rw e refl
    go gone e = rw e refl

-- The connections of a list are shut: each worker's is there.
all_shut :
    (ws : List Worker) (cs : List ℕ) (shut : ℕ → Bool)
    → ((fd : ℕ) → total (holds fd) ws ≤ count fd cs)
    → total (unshut (shut_in cs shut)) ws ≡ 0
all_shut [] cs shut h = refl
all_shut (w ∷ ws) cs shut h =
    let later = all_shut ws cs shut (λ fd. let more = h fd in omega arith) in
    let mine = h w.client_fd in omega (arith, unshut-listed w cs shut (omega arith))

module _ (s s' : RpcServer) (v : IsSound s) where
  -- Stop's steps.
  pub stop_from-IsSound : (p : StopPc) → s.stop ≡ p → stop_from p s ≡ some s' → IsSound s'
  unfolding stop_from after_accept
  stop_from-IsSound not_called p e =
      let on : s.running ≡ true = v.runs ∙ ap is_idle p in
      some-elim IsSound (record s { running = false; stop = told }) s' (rw on at e)
        (record {
          runs = refl;
          hears = v.hears ∙ ap is_hearing p;
          listed_all = λ k fd. v.listed_all (ap keeps_fds p) fd;
          shut_all = λ k. cc;
          joined = tt;
        })
  stop_from-IsSound told p e =
      some-elim IsSound (record s { listening = false; stop = deaf }) s' e
        (record {
          runs = v.runs ∙ ap is_idle p;
          hears = refl;
          listed_all = λ k fd. v.listed_all (ap keeps_fds p) fd;
          shut_all = λ k. cc;
          joined = tt;
        })
  stop_from-IsSound deaf p e =
      some-elim IsSound
        (record s { shut = shut_in s.client_fds s.shut; client_fds = []; stop = cleared }) s' e
        (record {
          runs = v.runs ∙ ap is_idle p;
          hears = v.hears ∙ ap is_hearing p;
          listed_all = λ k. cc;
          shut_all = λ k.
              all_shut s.workers s.client_fds s.shut
                (λ fd. let all = v.listed_all (ap keeps_fds p) fd in omega arith);
          joined = tt;
        })
  stop_from-IsSound cleared p e =
      let (over, f) = accept_is_over s.accept refl e in
      some-elim IsSound (record s { stop = accept_joined }) s' f
        (record {
          runs = v.runs ∙ ap is_idle p;
          hears = v.hears ∙ ap is_hearing p;
          listed_all = λ k. cc;
          shut_all = λ k. v.shut_all (ap keeps_fds p);
          joined = over;
        })
    where
      accept_is_over :
          (a : AcceptPc)
          → s.accept ≡ a
          → after_accept a s ≡ some s'
          → (s.accept ≡ ended) × (some (record s { stop = accept_joined }) ≡ some s')
      accept_is_over testing q f = absurd (ground (arith, f))
      accept_is_over accepting q f = absurd (ground (arith, f))
      accept_is_over failed q f = absurd (ground (arith, f))
      accept_is_over (accepted fd) q f = absurd (ground (arith, f))
      accept_is_over (listed fd) q f = absurd (ground (arith, f))
      accept_is_over ended q f = (q, f)
  stop_from-IsSound accept_joined p e = elim (Bool-cases (all_gone s.workers)) [
    | inl over ↦
        some-elim IsSound (record s { workers = []; stop = returned }) s' (rw over at e)
          (record {
            runs = v.runs ∙ ap is_idle p;
            hears = v.hears ∙ ap is_hearing p;
            listed_all = λ k. cc;
            shut_all = λ k. refl;
            joined = (subst (λ x. Joined x s.accept s.workers) p v.joined, refl);
          })
    | inr waits ↦ absurd (ground (arith, rw waits at e))
  ]
  stop_from-IsSound returned p e = absurd (ground (arith, e))
