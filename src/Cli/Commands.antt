-- ===== src/Cli/Commands.antt =====
-- The commands of lekv_cli.cpp: DoDataNodeRequest and Execute.
use le_kv.Base.{
  ℕ, true, false, ◌||◌, Option, none, some, List, [], ◌∷◌, if◌then◌else◌, ◌>>=◌, map, ◌⊎◌, inl, inr,
}
use le_kv.Bytes.{Bytes, is_empty}
use le_kv.Protocol.{encode_request, op_get, op_put, op_delete}
use le_kv.Cli.{
  CachedTablet, find_route, send_and_recv, RequestFailure, invalid_addr, connect_failed,
  recv_timeout, empty_payload, reply_value, Outcome, nothing, bye, help, routes, no_routes, no_key,
  no_route, no_answer, outcome_of,
}
use le_kv.Cli.Text.{read_port, read_word, to_lower, eq_bytes, from_first_not, split_at_colon}
use le_kv.Cli.Session.{Network, LekvCli, new_client, connect, next_req_id, fetch_route_table}

-- The words of the commands.
abbrev pub get_command : Bytes
get_command = b'g' ∷ b'e' ∷ b't' ∷ []

abbrev pub put_command : Bytes
put_command = b'p' ∷ b'u' ∷ b't' ∷ []

abbrev pub delete_command : Bytes
delete_command = b'd' ∷ b'e' ∷ b'l' ∷ b'e' ∷ b't' ∷ b'e' ∷ []

abbrev pub del_command : Bytes
del_command = b'd' ∷ b'e' ∷ b'l' ∷ []

abbrev pub exit_command : Bytes
exit_command = b'e' ∷ b'x' ∷ b'i' ∷ b't' ∷ []

abbrev pub quit_command : Bytes
quit_command = b'q' ∷ b'u' ∷ b'i' ∷ b't' ∷ []

abbrev pub help_command : Bytes
help_command = b'h' ∷ b'e' ∷ b'l' ∷ b'p' ∷ []

abbrev pub tablets_command : Bytes
tablets_command = b't' ∷ b'a' ∷ b'b' ∷ b'l' ∷ b'e' ∷ b't' ∷ b's' ∷ []

-- DoDataNodeRequest's result: why it failed, or a status and a value.
abbrev pub Reply : Type 0
Reply = RequestFailure ⊎ (ℕ × Bytes)

-- DoDataNodeRequest, after its exchange.
unfoldable pub data_node_reply : Option (ℕ × Bytes) → Option Reply
data_node_reply none = some (inl recv_timeout)
data_node_reply (some (resp_req_id, [])) = some (inl empty_payload)
data_node_reply (some (resp_req_id, status ∷ rest)) = do
  result ← reply_value (status ∷ rest)
  some (inr (status, result))

-- The opcode of a command; one that it does not know is a GET.
unfoldable pub opcode_of : Bytes → ℕ
opcode_of cmd =
    if eq_bytes cmd get_command
    then op_get
    else if eq_bytes cmd put_command
    then op_put
    else if eq_bytes cmd delete_command || eq_bytes cmd del_command
    then op_delete
    else op_get

-- The value of a put: the rest of its line without the blanks before it. One of blanks only stays.
unfoldable pub value_of_line : Bytes → Bytes → Bytes
value_of_line cmd line =
    if eq_bytes cmd put_command
    then elim (from_first_not b' ' line) [ none ↦ line | some value ↦ value ]
    else []

module _ (net : Network) where
  -- DoDataNodeRequest, from its connection on: a new RpcClient, which is gone at the end.
  unfoldable pub request_at :
      LekvCli net → Bytes → ℕ → ℕ → Bytes → Bytes → Option (Reply × LekvCli net)
  unfolding connect data_node_reply
  request_at c ip port opcode key value =
      let (good, client, w) = connect net c.world new_client ip port in
      let c1 = record c { world = w } in
      elim good [
        | false ↦ some (inl connect_failed, c1)
        | true ↦ do
          r ← send_and_recv client (encode_request c.req_id opcode key value)
          reply ← data_node_reply r.0
          some (reply, next_req_id net c1)
      ]

  -- DoDataNodeRequest. `none` is also the exception of stoi on what is no number.
  unfoldable pub do_data_node_request :
      LekvCli net → Bytes → ℕ → Bytes → Bytes → Option (Reply × LekvCli net)
  do_data_node_request c addr opcode key value = elim (split_at_colon addr) [
    | none ↦ some (inl invalid_addr, c)
    | some parts ↦ do port ← read_port parts.1; request_at c parts.0 port opcode key value
  ]

  -- Execute, from the route on.
  unfoldable pub execute_on :
      LekvCli net → List CachedTablet → Bytes → Bytes → Bytes → Option (Outcome × LekvCli net)
  execute_on c tablets cmd key value = do
    route ← find_route tablets key
    elim route [
      | none ↦ some (no_route, c)
      | some addr ↦ do
        r ← do_data_node_request c addr (opcode_of cmd) key value
        elim (r.0) [
          | inl why ↦ some (no_answer why, r.1)
          | inr reply ↦ some (outcome_of (eq_bytes cmd get_command) reply.0 reply.1, r.1)
        ]
    ]

  -- Execute, from the key on.
  unfoldable pub execute_key : LekvCli net → Bytes → Bytes → Option (Outcome × LekvCli net)
  execute_key c cmd line =
      let (key, more) = read_word line in
      if is_empty key then some (no_key, c) else do
        r ← fetch_route_table net c
        elim (r.0) [
          | none ↦ some (no_routes, r.1)
          | some tablets ↦ execute_on r.1 tablets cmd key (value_of_line cmd more)
        ]

  -- The command tablets of Execute.
  unfoldable pub show_routes : LekvCli net → Option (Outcome × LekvCli net)
  show_routes c = do
    r ← fetch_route_table net c
    some (elim (r.0) [ none ↦ no_routes | some tablets ↦ routes tablets ], r.1)

  -- Execute: what is printed. `exit` ends the program.
  unfoldable pub execute : LekvCli net → Bytes → Option (Outcome × LekvCli net)
  execute c line =
      let (word, more) = read_word line in
      let cmd = map to_lower word in
      if is_empty cmd
      then some (nothing, c)
      else if eq_bytes cmd exit_command || eq_bytes cmd quit_command
      then some (bye, c)
      else if eq_bytes cmd help_command
      then some (help, c)
      else if eq_bytes cmd tablets_command
      then show_routes c
      else execute_key c cmd more
