-- ===== src/RpcServer/Invariant.antt =====
-- What holds between the steps of a server's threads.
use le_kv.Base.{ℕ, ◌+◌, ◌≤◌, Bool, true, false, List, [], ◌==◌, ◌≡◌, if◌then◌else◌}
use le_kv.RpcServer.{
  StopPc, not_called, told, deaf, accept_joined, returned, AcceptPc, listed, ended, entering,
  serving, closing, leaving, gone, Worker, RpcServer, count, is_gone,
}
use le_kv.RpcServer.Totals.{total}

-- Stop was not called.
abbrev pub is_idle : StopPc → Bool
is_idle not_called = true
is_idle _ = false

-- Stop has not closed the listening socket.
abbrev pub is_hearing : StopPc → Bool
is_hearing not_called = true
is_hearing told = true
is_hearing _ = false

-- Stop has not emptied `client_fds_`.
abbrev pub keeps_fds : StopPc → Bool
keeps_fds not_called = true
keeps_fds told = true
keeps_fds deaf = true
keeps_fds _ = false

-- Whether a worker holds a connection.
abbrev pub holds : ℕ → Worker → ℕ
holds fd w = if is_gone w then 0 else if w.client_fd == fd then 1 else 0

-- Whether the accept thread has put a connection in the list whose worker it has not started.
abbrev pub pending : ℕ → AcceptPc → ℕ
pending fd (listed c) = if c == fd then 1 else 0
pending fd _ = 0

abbrev pub is_serving : Worker → Bool
is_serving w = elim w.pc [
  | entering ↦ false
  | serving ↦ true
  | closing ↦ false
  | leaving ↦ false
  | gone ↦ false
]

-- Whether a worker is in a round, on a connection that was not shut down.
abbrev pub unshut : (ℕ → Bool) → Worker → ℕ
unshut shut w = if is_serving w then (if shut w.client_fd then 0 else 1) else 0

-- The threads that Stop has joined.
abbrev pub Joined : StopPc → AcceptPc → List Worker → Type 0
Joined accept_joined a ws = a ≡ ended
Joined returned a ws = (a ≡ ended) × (ws ≡ [])
Joined _ a ws = Unit

pub record IsSound (s : RpcServer) : Type 0 where
  pub runs : s.running ≡ is_idle s.stop
  pub hears : s.listening ≡ is_hearing s.stop
  pub listed_all :
      keeps_fds s.stop ≡ true
      → (fd : ℕ) → total (holds fd) s.workers + pending fd s.accept ≤ count fd s.client_fds
  pub shut_all : keeps_fds s.stop ≡ false → total (unshut s.shut) s.workers ≡ 0
  pub joined : Joined s.stop s.accept s.workers
