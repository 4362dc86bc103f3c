-- ===== src/Cli/Session.antt =====
-- The client of lekv_cli.cpp with its connections: FetchRouteTable.
use le_kv.Base.{
  ℕ, ◌+◌, Bool, true, false, not, ◌||◌, Option, none, some, List, [], ◌∷◌, ◌==◌, if◌then◌else◌,
  ◌>>=◌,
}
use le_kv.Bytes.{Bytes}
use le_kv.Bytes.Endian.{u32}
use le_kv.Protocol.{encode_request, op_shards, st_ok}
use le_kv.Cli.{CachedTablet, tablets_of_body, Socket, RpcClient, is_connected, close, send_and_recv}

-- The bytes of a payload from the sixth on; a shorter one than five is undefined behaviour.
abbrev body_of : Bytes → Option Bytes
body_of (s ∷ a ∷ b ∷ c ∷ d ∷ body) = some body
body_of payload = none

-- FetchRouteTable, after the reply.
unfoldable pub table_of_reply : ℕ → ℕ × Bytes → Option (Option (List CachedTablet))
table_of_reply rid (resp_req_id, []) = some none
table_of_reply rid (resp_req_id, status ∷ rest) =
    if not (resp_req_id == rid) || not (status == st_ok) then some none else do
      body ← body_of (status ∷ rest)
      out ← tablets_of_body body
      some (elim out [ [] ↦ none | t ∷ ts ↦ some (t ∷ ts) ])

-- What the client relies on beside its own code: the calls socket and connect of the system. A socket
-- is none if there is no descriptor for it, and connecting it may fail.
pub record Network : Type 1 where
  pub World : Type 0
  pub socket : World → Option Socket × World
  pub connect_socket : World → Socket → Bytes → ℕ → Bool × Socket × World

-- An RpcClient as it is constructed.
abbrev pub new_client : RpcClient
new_client = record { buf = []; fd = none }

module _ (net : Network) where
  open net use {World}

  -- RpcClient::Connect, from the call of connect on. The descriptor stays if that fails.
  abbrev connect_on : RpcClient → Bytes → ℕ → Option Socket → World → Bool × RpcClient × World
  connect_on c ip port none w = (false, c, w)
  connect_on c ip port (some s) w =
      let (good, s', w') = net.connect_socket w s ip port in (good, record c { fd = some s' }, w')

  -- RpcClient::Connect
  unfoldable pub connect : World → RpcClient → Bytes → ℕ → Bool × RpcClient × World
  connect w c ip port = let (fd, w') = net.socket w in connect_on (close c) ip port fd w'

  pub record LekvCli : Type 0 where
    pub master_ip : Bytes
    pub master_port : ℕ
    pub proxy_conn : RpcClient
    pub req_id : ℕ
    pub world : World

  -- Connect of the connection to the master, which closes it first.
  unfoldable pub connect_proxy : LekvCli → Bool × LekvCli
  unfolding connect
  connect_proxy c =
      let (good, conn, w) = connect c.world c.proxy_conn c.master_ip c.master_port in
      (good, record c { proxy_conn = conn; world = w })

  -- NextReqId
  abbrev pub next_req_id : LekvCli → LekvCli
  next_req_id c = record c { req_id = u32 (c.req_id + 1) }

  abbrev proxy_send : LekvCli → Bytes → Option (Option (ℕ × Bytes) × LekvCli)
  proxy_send c req = do
    r ← send_and_recv c.proxy_conn req
    some (r.0, record c { proxy_conn = r.1 })

  -- FetchRouteTable's second try, on a new connection.
  unfoldable pub send_again : LekvCli → Bytes → Option (Option (ℕ × Bytes) × LekvCli)
  unfolding connect_proxy
  send_again c req =
      let (good, c1) = connect_proxy c in
      elim good [ false ↦ some (none, c1) | true ↦ proxy_send c1 req ]

  -- FetchRouteTable's request, tried twice.
  unfoldable pub send_twice : LekvCli → Bytes → Option (Option (ℕ × Bytes) × LekvCli)
  unfolding send_again
  send_twice c req = do
    r ← proxy_send c req
    elim (r.0) [ none ↦ send_again r.1 req | some reply ↦ some (some reply, r.1) ]

  -- FetchRouteTable on a connection: the request, and the table of its reply.
  unfoldable pub fetch_connected : LekvCli → Option (Option (List CachedTablet) × LekvCli)
  unfolding send_twice table_of_reply
  fetch_connected c = do
    r ← send_twice (next_req_id c) (encode_request c.req_id op_shards [] [])
    elim (r.0) [
      | none ↦ some (none, r.1)
      | some reply ↦ do table ← table_of_reply c.req_id reply; some (table, r.1)
    ]

  -- FetchRouteTable: the table, or the inner `none` for the result false, whose table is empty.
  unfoldable pub fetch_route_table : LekvCli → Option (Option (List CachedTablet) × LekvCli)
  unfolding fetch_connected
  fetch_route_table c =
      if is_connected c.proxy_conn
      then fetch_connected c
      else let (good, c1) = connect_proxy c in
        elim good [ false ↦ some (none, c1) | true ↦ fetch_connected c1 ]
