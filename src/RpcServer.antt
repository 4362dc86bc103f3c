-- ===== src/RpcServer.antt =====
-- The threads of RpcServer in rpc/rpc_server.cpp: Stop, AcceptLoop, and HandleClient around the rounds
-- of its loop, which Server and TextRpc are about.
pub mod Totals
pub mod Invariant
pub mod Stop
pub mod Accept
pub mod Work
pub mod Shut
pub mod Measure
pub mod Stops
mod Tests
use le_kv.Base.{
  ℕ, zero, suc, ◌+◌, Bool, true, false, Option, none, some, List, [], ◌∷◌, ◌++◌, ◌==◌, ltb,
  if◌then◌else◌, get_elem?, set, ◌>>=◌, ◌≡◌,
}

-- Where one call of Stop is: not called; `running_` is false; the listening socket is shut and closed; the
-- connections are shut and closed; the accept thread is joined; returned.
pub data StopPc : Type 0 where
  not_called : StopPc
  told : StopPc
  deaf : StopPc
  cleared : StopPc
  accept_joined : StopPc
  returned : StopPc

-- Where AcceptLoop is: at the test of its loop, in accept, behind an accept that failed, with a new
-- connection, with one that is in `client_fds_`, or at its end.
pub data AcceptPc : Type 0 where
  testing : AcceptPc
  accepting : AcceptPc
  failed : AcceptPc
  accepted : ℕ → AcceptPc
  listed : ℕ → AcceptPc
  ended : AcceptPc

-- Where HandleClient is: at the test of its loop, in a round, before `close`, behind it, or at its end.
pub data WorkerPc : Type 0 where
  entering : WorkerPc
  serving : WorkerPc
  closing : WorkerPc
  leaving : WorkerPc
  gone : WorkerPc

pub record Worker : Type 0 where
  pub client_fd : ℕ
  pub pc : WorkerPc

-- A server and its threads. `listening` says that `listen_fd_` is open, and `shut` which
-- connections Stop shut down.
pub record RpcServer : Type 0 where
  pub running : Bool
  pub listening : Bool
  pub client_fds : List ℕ
  pub shut : ℕ → Bool
  pub stop : StopPc
  pub accept : AcceptPc
  pub workers : List Worker

-- The results of socket, bind and listen.
pub record Opening : Type 0 where
  pub socket : Bool
  pub bind : Bool
  pub listen : Bool

-- ServerStart, on a server that is not running; its result, and what it leaves open.
unfoldable pub server_start : Opening → RpcServer → Bool × RpcServer
server_start o s =
    if o.socket
    then if o.bind
      then if o.listen
        then (true, record s { running = true; listening = true; accept = testing })
        else (false, record s { listening = true })
      else (false, record s { listening = true })
    else (false, s)

-- How often a descriptor is in a list.
unfoldable pub count : ℕ → List ℕ → ℕ
count fd [] = 0
count fd (c ∷ cs) = (if c == fd then 1 else 0) + count fd cs

-- The first such descriptor is erased, if there is one.
unfoldable pub erase : ℕ → List ℕ → List ℕ
erase fd [] = []
erase fd (c ∷ cs) = if c == fd then cs else c ∷ erase fd cs

abbrev pub is_gone : Worker → Bool
is_gone w = elim w.pc [
  | entering ↦ false
  | serving ↦ false
  | closing ↦ false
  | leaving ↦ false
  | gone ↦ true
]

unfoldable pub all_gone : List Worker → Bool
all_gone [] = true
all_gone (w ∷ ws) = if is_gone w then all_gone ws else false

-- `accept_thread_.join()`
unfoldable pub after_accept : AcceptPc → RpcServer → Option RpcServer
after_accept ended s = some (record s { stop = accept_joined })
after_accept a s = none

-- The next step of Stop; `none` if it waits for a thread, or has returned.
unfoldable pub stop_from : StopPc → RpcServer → Option RpcServer
unfolding count after_accept all_gone
stop_from not_called s =
    some (
      if s.running then record s { running = false; stop = told } else record s { stop = returned })
stop_from told s = some (record s { listening = false; stop = deaf })
stop_from deaf s = some (record s {
  shut = λ fd. if ltb 0 (count fd s.client_fds) then true else s.shut fd;
  client_fds = [];
  stop = cleared;
})
stop_from cleared s = after_accept s.accept s
stop_from accept_joined s =
    if all_gone s.workers then some (record s { workers = []; stop = returned }) else none
stop_from returned s = none

-- The next step of AcceptLoop, for a result of accept.
unfoldable pub accept_from : AcceptPc → Option ℕ → RpcServer → Option RpcServer
accept_from testing r s = some (record s { accept = if s.running then accepting else ended })
accept_from accepting none s = some (record s { accept = failed })
accept_from accepting (some fd) s =
    if s.listening
    then some (record s { shut = λ c. if c == fd then false else s.shut c; accept = accepted fd })
    else none
accept_from failed r s = some (record s { accept = if s.running then testing else ended })
accept_from (accepted fd) r s =
    some (record s { client_fds = s.client_fds ++ (fd ∷ []); accept = listed fd })
accept_from (listed fd) r s = some (record s {
  workers = s.workers ++ (record { client_fd = fd; pc = entering } ∷ []);
  accept = testing;
})
accept_from ended r s = none

-- The place of HandleClient after its next step; a round of its loop ends in another test or not.
unfoldable pub next_pc : Bool → Bool → WorkerPc → WorkerPc
next_pc running again entering = if running then serving else closing
next_pc running again serving = if again then entering else closing
next_pc running again closing = leaving
next_pc running again leaving = gone
next_pc running again gone = gone

-- The descriptors after that step; the HandleClient of BinaryRpcServer erases its own.
unfoldable pub fds_after : Bool → Worker → List ℕ → List ℕ
unfolding erase
fds_after erases w cs = elim w.pc [
  | entering ↦ cs
  | serving ↦ cs
  | closing ↦ cs
  | leaving ↦ if erases then erase w.client_fd cs else cs
  | gone ↦ cs
]

-- The next step of the HandleClient of a worker thread.
unfoldable pub worker_from : Bool → Bool → ℕ → RpcServer → Option RpcServer
unfolding next_pc fds_after
worker_from erases again i s = do
  w ← get_elem? s.workers i
  if is_gone w
      then none
      else some (record s {
        workers = set s.workers i (record w { pc = next_pc s.running again w.pc });
        client_fds = fds_after erases w s.client_fds;
      })

-- A step of one of the threads: the results of accept and of the rounds are the peers'.
pub data Step (erases : Bool) (s s' : RpcServer) : Type 0 where
  stop_step : stop_from s.stop s ≡ some s' → Step erases s s'
  accept_step : (r : Option ℕ) → accept_from s.accept r s ≡ some s' → Step erases s s'
  worker_step : (again : Bool) (i : ℕ) → worker_from erases again i s ≡ some s' → Step erases s s'

-- A new server, as the constructor leaves it, before ServerStart.
abbrev pub new_server : RpcServer
new_server = record {
  running = false;
  listening = false;
  client_fds = [];
  shut = λ fd. false;
  stop = not_called;
  accept = ended;
  workers = [];
}

-- The states of a server that was started.
pub data Reach (erases : Bool) : RpcServer → Type 0 where
  started : {s : RpcServer} (o : Opening) → server_start o new_server ≡ (true, s) → Reach erases s
  moved : {s s' : RpcServer} → Reach erases s → Step erases s s' → Reach erases s'
