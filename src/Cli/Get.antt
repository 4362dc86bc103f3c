-- ===== src/Cli/Get.antt =====
-- The command `get` of the client, from its line to what it prints.
use le_kv.Base.{
  ℕ, ◌+◌, ◌<◌, true, false, some, List, [], ◌∷◌, ◌++◌, ◌==◌, ◌≡◌, refl, ap, ◌∙◌, arith, length, inr,
  append-nil,
}
use le_kv.Bytes.{Bytes, is_empty}
use le_kv.Bytes.Endian.{u32, be32, slice, slice_past, read32, read32_past}
use le_kv.Dispatch.{get_node_addr, handle_master_shards}
use le_kv.Dispatch.Decimal.{to_string}
use le_kv.Protocol.{encode_request, op_get, st_ok}
use le_kv.Protocol.RoundTrip.{response_payload}
use le_kv.Routing.{PeerInfo, Table, Tablet}
use le_kv.Routing.Partition.{IsPartition, owner}
use le_kv.Cli.{CachedTablet, Socket, reply_value, value_of, shown, outcome_of, find_route}
use le_kv.Cli.Text.{eq_bytes, is_space, skip_spaces, span_word, read_word, split_at_colon}
use le_kv.Cli.Numbers.{Avoids, read_port-to_string}
use le_kv.Cli.Shards.{AllReadable}
use le_kv.Cli.Exchange.{Carries, send_and_recv-Carries}
use le_kv.Cli.Fetch.{fetch_route_table-owner, shards_request, with_proxy}
use le_kv.Cli.Session.{Network, LekvCli, new_client, connect, next_req_id, fetch_route_table}
use le_kv.Cli.Commands.{
  get_command, data_node_reply, request_at, do_data_node_request, opcode_of, value_of_line,
  execute_on, execute_key, execute,
}

reply_value_empty : (status : ℕ) → reply_value (response_payload status []) ≡ some []
unfolding reply_value read32
reply_value_empty status = refl

-- DoDataNodeRequest reads the value of a response.
reply_value-response :
    (status : ℕ) (v : Bytes)
    → 15 + length v < 4294967296
    → reply_value (response_payload status v) ≡ some v
unfolding reply_value
reply_value-response status [] h = reply_value_empty status
reply_value-response status (x ∷ v) h =
    let read : read32 (response_payload status (x ∷ v)) 1 ≡ some (length (x ∷ v)) =
      read32_past 1 (length (x ∷ v)) (status ∷ []) (x ∷ v) refl (omega arith) in
    let part : slice (response_payload status (x ∷ v)) 5 (length (x ∷ v)) ≡ some (x ∷ v) =
      rw (append-nil v) at
        (slice_past 5 (length (x ∷ v)) (status ∷ be32 (length (x ∷ v))) (x ∷ v) [] refl refl) in
    ground (arith, read, part)

split_at_colon-append :
    (ip port : Bytes)
    → Avoids (λ b. b == b':') ip
    → split_at_colon (ip ++ (b':' ∷ port)) ≡ some (ip, port)
unfolding split_at_colon
split_at_colon-append [] port a = ground arith
split_at_colon-append (x ∷ ip) port a = rw (a.0, split_at_colon-append ip port a.1) refl

-- The address of a peer, as GetNodeAddr writes it, is read back.
module _ (net : Network) (c : LekvCli net) (ip : Bytes) (port : ℕ) where
  request_at-Carries :
      (s : Socket) (w : net.World) (opcode : ℕ) (key value : Bytes) (status : ℕ) (v rest : Bytes)
      → connect net c.world new_client ip port ≡ (true, record { buf = []; fd = some s }, w)
      → Carries
          (record { buf = []; fd = some s })
          s
          (encode_request c.req_id opcode key value)
          c.req_id
          status
          v
          rest
      → request_at net c ip port opcode key value
        ≡ some (inr (status, v), next_req_id net (record c { world = w }))
  unfolding request_at data_node_reply
  request_at-Carries s w opcode key value status v rest e k =
      let (c', x, _x) = send_and_recv-Carries _ s _ _ status v rest k in
      let reply = reply_value-response status v (k.fits) in
      let good = ap (λ z. z.0) e in
      let client = ap (λ z. z.1) e in
      let world = ap (λ z. z.2) e in rw (good, request_at, client, world, x, reply) refl

  do_data_node_request-Carries :
      (s : Socket) (w : net.World) (opcode : ℕ) (key value : Bytes) (status : ℕ) (v rest : Bytes)
      → Avoids (λ b. b == b':') ip
      → port < 65536
      → connect net c.world new_client ip port ≡ (true, record { buf = []; fd = some s }, w)
      → Carries
          (record { buf = []; fd = some s })
          s
          (encode_request c.req_id opcode key value)
          c.req_id
          status
          v
          rest
      → do_data_node_request net c (ip ++ (b':' ∷ to_string port)) opcode key value
        ≡ some (inr (status, v), next_req_id net (record c { world = w }))
  unfolding do_data_node_request
  do_data_node_request-Carries s w opcode key value status v rest a h e k =
      let addr = split_at_colon-append ip (to_string port) a in
      let number = read_port-to_string port h in
      rw (addr, do_data_node_request, number)
        (request_at-Carries s w opcode key value status v rest e k)

-- Words.
span_word-plain : (key : Bytes) → Avoids is_space key → span_word key ≡ (key, [])
unfolding span_word
span_word-plain [] a = refl
span_word-plain (b ∷ key) a = rw (span_word-plain key a.1, a.0) refl

read_word-plain :
    (k : ℕ) (ks : Bytes) → Avoids is_space (k ∷ ks) → read_word (b' ' ∷ k ∷ ks) ≡ (k ∷ ks, [])
unfolding skip_spaces
read_word-plain k ks a = rw (a.0, skip_spaces) (span_word-plain (k ∷ ks) a)

get_opcode : opcode_of get_command ≡ op_get
unfolding opcode_of eq_bytes
get_opcode = refl

get_known : eq_bytes get_command get_command ≡ true
unfolding eq_bytes
get_known = refl

get_no_value : value_of_line get_command [] ≡ []
unfolding value_of_line eq_bytes
get_no_value = refl

-- The line `get <key>`.
abbrev pub get_line : Bytes → Bytes
get_line key = get_command ++ (b' ' ∷ key)

module _ (net : Network) (c : LekvCli net) where
  execute-get_line :
      (key : Bytes) → execute net c (get_line key) ≡ execute_key net c get_command (b' ' ∷ key)
  unfolding execute skip_spaces span_word eq_bytes
  execute-get_line key = refl

  execute_key-route :
      (c' : LekvCli net) (cmd line key more : Bytes) (tablets : List CachedTablet)
      → read_word line ≡ (key, more)
      → is_empty key ≡ false
      → fetch_route_table net c ≡ some (some tablets, c')
      → execute_key net c cmd line ≡ execute_on net c' tablets cmd key (value_of_line cmd more)
  unfolding execute_key
  execute_key-route c' cmd line key more tablets word solid fetched =
      let first = ap (λ z. z.0) word in
      let second = ap (λ z. z.1) word in rw (first, solid, fetched, first, second) refl

  -- The route is there, and the data node answers.
  execute_on-value :
      (s : Socket) (w : net.World) (ip : Bytes) (port : ℕ) (key v rest : Bytes)
      (tablets : List CachedTablet)
      → find_route tablets key ≡ some (some (ip ++ (b':' ∷ to_string port)))
      → Avoids (λ b. b == b':') ip
      → port < 65536
      → connect net c.world new_client ip port ≡ (true, record { buf = []; fd = some s }, w)
      → Carries
          (record { buf = []; fd = some s })
          s
          (encode_request c.req_id op_get key [])
          c.req_id
          st_ok
          v
          rest
      → execute_on net c tablets get_command key []
        ≡ some (value_of (shown v), next_req_id net (record c { world = w }))
  unfolding execute_on outcome_of
  execute_on-value s w ip port key v rest tablets r a h e k =
      let reply =
        do_data_node_request-Carries net c ip port s w op_get key [] st_ok v rest a h e k in
      rw (r, execute_on, get_opcode, reply, get_known) refl

module _ (net : Network) (c : LekvCli net) where
  -- A client that is connected to a master, at the line `get <key>`, prints the value that the key's
  -- data node answers, or (empty) for an empty one, and has used two request ids: if the connection carries the master's answer to
  -- SHARDS, whose tablets cut the key space, are fewer than 2^64 and are readable, the address of the
  -- node of the tablet that contains the key is an ip without a colon and a port below 2^16, the client
  -- can connect there, and the new connection carries an OK with the value. The key has no blank and
  -- is not empty. To carry an answer is that the socket takes the request, and the answer, whose frame
  -- fits 32 bits, is next on it, with less waiting than RecvAll's timeout.
  pub execute_get :
      (m s : Socket) (w : net.World) (peers : List PeerInfo) (table : Table) (t : Tablet)
      (ip : Bytes) (port k : ℕ) (ks shards rest v rest' : Bytes)
      → Avoids is_space (k ∷ ks)
      → handle_master_shards peers table ≡ st_ok ∷ shards
      → Carries c.proxy_conn m (shards_request net c) c.req_id st_ok shards rest
      → IsPartition table.tablets
      → AllReadable peers table.tablets
      → length table.tablets < 18446744073709551616
      → owner (k ∷ ks) table.tablets ≡ some t
      → get_node_addr peers t.node_id ≡ ip ++ (b':' ∷ to_string port)
      → Avoids (λ b. b == b':') ip
      → port < 65536
      → connect net c.world new_client ip port ≡ (true, record { buf = []; fd = some s }, w)
      → Carries
          (record { buf = []; fd = some s })
          s
          (encode_request (u32 (c.req_id + 1)) op_get (k ∷ ks) [])
          (u32 (c.req_id + 1))
          st_ok
          v
          rest'
      → (c' : LekvCli net) × (execute net c (get_line (k ∷ ks)) ≡ some (value_of (shown v), c'))
        × (c'.req_id ≡ u32 (u32 (c.req_id + 1) + 1))
  execute_get m s w peers table t ip port k ks shards rest v rest' plain handled asked cut readable
        size own addr ip_plain port_fits e answer =
      let (p, untouched, fetched, (t', own', _in, found)) =
        fetch_route_table-owner net c m shards rest peers table (k ∷ ks) handled asked cut readable
          size in
      let same : t' ≡ t = cc in
      let route = rw (same, addr) at found in
      let run =
        execute_on-value net (with_proxy net c p) s w ip port (k ∷ ks) v rest' _ route ip_plain
          port_fits e answer in
      let looked = rw get_no_value at (
        execute_key-route net c (with_proxy net c p) get_command (b' ' ∷ k ∷ ks) (k ∷ ks) [] _
          (read_word-plain k ks plain) refl fetched) in
      (
        next_req_id net (record (with_proxy net c p) { world = w }),
        execute-get_line net c (k ∷ ks) ∙ looked ∙ run,
        refl,
      )
