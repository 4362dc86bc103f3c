-- ===== src/RpcServer/Accept.antt =====
-- The steps of AcceptLoop keep what holds between the steps.
use le_kv.Base.{
  some-elim, if-some, ℕ, Bool, true, false, Option, none, some, List, [], ◌∷◌, ◌++◌, ◌==◌, ◌≡◌, ◌≢◌,
  refl, sym, ◌∙◌, arith, if◌then◌else◌,
}
use mathlib.Core.Path.{subst}
use le_kv.RpcServer.{
  StopPc, not_called, told, deaf, cleared, accept_joined, returned, AcceptPc, testing, accepting,
  failed, accepted, listed, ended, entering, Worker, RpcServer, count, accept_from,
}
use le_kv.RpcServer.Totals.{total-append, count-append}
use le_kv.RpcServer.Invariant.{is_hearing, keeps_fds, holds, pending, unshut, Joined, IsSound}

pending-if :
    (a : AcceptPc) (c : Bool)
    → ((fd : ℕ) → pending fd a ≡ 0)
    → (fd : ℕ) → pending fd (if c then a else ended) ≡ 0
pending-if a true h fd = h fd
pending-if a false h fd = refl

keeps-hears : (p : StopPc) → is_hearing p ≡ true → keeps_fds p ≡ true
keeps-hears not_called e = refl
keeps-hears told e = refl
keeps-hears deaf e = refl
keeps-hears cleared e = cc
keeps-hears accept_joined e = cc
keeps-hears returned e = cc

module _ (s s' : RpcServer) (v : IsSound s) where
  -- Nothing is joined while the accept thread runs.
  still_running :
      (p : StopPc) (a : AcceptPc) (ws : List Worker) → s.stop ≡ p → s.accept ≢ ended → Joined p a ws
  still_running not_called a ws p n = tt
  still_running told a ws p n = tt
  still_running deaf a ws p n = tt
  still_running cleared a ws p n = tt
  still_running accept_joined a ws p n =
      absurd (n (subst (λ x. Joined x s.accept s.workers) p v.joined))
  still_running returned a ws p n =
      absurd (n (subst (λ x. Joined x s.accept s.workers) p v.joined).0)

  -- A step of the accept thread to a place without a connection in hand.
  accept-to :
      (a b : AcceptPc)
      → s.accept ≡ a
      → a ≢ ended
      → ((fd : ℕ) → pending fd b ≡ pending fd a)
      → some (record s { accept = b }) ≡ some s'
      → IsSound s'
  accept-to a b p n same e =
      some-elim IsSound (record s { accept = b }) s' e
        (record {
          runs = v.runs;
          hears = v.hears;
          listed_all = λ k fd. let all = v.listed_all k fd in rw (same fd, ← p) all;
          shut_all = v.shut_all;
          joined = still_running s.stop b s.workers refl (λ f. n (sym p ∙ f));
        })

  -- The accept thread's steps.
  pub accept_from-IsSound :
      (a : AcceptPc) (r : Option ℕ) → s.accept ≡ a → accept_from a r s ≡ some s' → IsSound s'
  unfolding accept_from count
  accept_from-IsSound testing r p e =
      accept-to testing _ p (λ f. ground arith) (pending-if accepting s.running (λ fd. refl)) e
  accept_from-IsSound accepting none p e =
      accept-to accepting failed p (λ f. ground arith) (λ fd. refl) e
  accept_from-IsSound accepting (some fd) p e =
      let now = record s {
        shut = λ c. if c == fd then false else s.shut c;
        accept = accepted fd;
      } in
      let (hearing, f) = if-some s.listening now s' e in
      let early = keeps-hears s.stop (sym (v.hears) ∙ hearing) in
      some-elim IsSound now s' f (record {
        runs = v.runs;
        hears = v.hears;
        listed_all = λ k c. let all = v.listed_all k c in rw p at all;
        shut_all = λ k. absurd (ground arith);
        joined = still_running s.stop (accepted fd) s.workers refl (λ f. ground arith);
      })
  accept_from-IsSound failed r p e =
      accept-to failed _ p (λ f. ground arith) (pending-if testing s.running (λ fd. refl)) e
  accept_from-IsSound (accepted fd) r p e =
      some-elim IsSound (record s { client_fds = s.client_fds ++ (fd ∷ []); accept = listed fd }) s'
        e
        (record {
          runs = v.runs;
          hears = v.hears;
          listed_all = λ k c.
              let all = v.listed_all k c in
              let before = rw p at all in omega (arith, count-append c s.client_fds (fd ∷ []));
          shut_all = v.shut_all;
          joined = still_running s.stop (listed fd) s.workers refl (λ f. ground arith);
        })
  accept_from-IsSound (listed fd) r p e =
      let w : Worker = record { client_fd = fd; pc = entering } in
      some-elim IsSound (record s { workers = s.workers ++ (w ∷ []); accept = testing }) s' e
        (record {
          runs = v.runs;
          hears = v.hears;
          listed_all = λ k c.
              let all = v.listed_all k c in
              let before = rw p at all in omega (arith, total-append (holds c) s.workers (w ∷ []));
          shut_all = λ k.
              let before = v.shut_all k in
              omega (arith, total-append (unshut s.shut) s.workers (w ∷ []));
          joined = still_running s.stop testing (s.workers ++ (w ∷ [])) refl (λ f. ground arith);
        })
  accept_from-IsSound ended r p e = absurd (ground (arith, e))
