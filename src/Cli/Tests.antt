-- ===== src/Cli/Tests.antt =====
-- A client, a master and a data node at an input, and each theorem about the client there.
use le_kv.Base.{ℕ, suc, true, Option, some, none, List, [], ◌∷◌, ◌++◌, ◌≡◌, refl, arith, map}
use le_kv.Bytes.{Bytes, lt_bytes}
use le_kv.Dispatch.{get_node_addr, shards_body, handle_master_shards}
use le_kv.Dispatch.Decimal.{digits, to_string}
use le_kv.Protocol.{encode_request, encode_response, op_get, st_ok}
use le_kv.Routing.{PeerInfo, Table, Tablet, get_tablet_route}
use le_kv.Routing.Partition.{IsPartition, owner}
use le_kv.Rpc.{taken, bytes, send_loop}
use le_kv.Cli.{Socket, find_route, tablets_of_body, value_of, help, bye}
use le_kv.Cli.Text.{
  eq_bytes, words_from, split_colons, span_digits, signed_number, read_unsigned, skip_spaces,
  span_word,
}
use le_kv.Cli.{tablet_of_parts, tablets_of_segments, sort_by_start, insert_by_start}
use le_kv.Cli.Session.{Network, LekvCli, new_client, connect}
use le_kv.Cli.Commands.{execute, help_command, exit_command}
use le_kv.Cli.Loop.{run, init, client_main}
use le_kv.Boot.{read_master_config}
use le_kv.Cli.Route.{cached, addr_of, find_route-get_tablet_route}
use le_kv.Cli.Shards.{AllReadable, tablets_of_body-shards}
use le_kv.Cli.Exchange.{Carries}
use le_kv.Cli.Fetch.{shards_request}
use le_kv.Cli.Get.{get_line, execute_get}

abbrev host : Bytes
host = b'h' ∷ []

abbrev first_node : PeerInfo
first_node = record { id = 2; ip = host; port = 9002 }

abbrev second_node : PeerInfo
second_node = record { id = 3; ip = host; port = 9003 }

abbrev two_peers : List PeerInfo
two_peers = first_node ∷ second_node ∷ []

abbrev low : Tablet
low = record { id = 1; start_key = []; end_key = b'm' ∷ []; node_id = 2; key_count = 5 }

abbrev high : Tablet
high = record { id = 2; start_key = b'm' ∷ []; end_key = []; node_id = 3; key_count = 7 }

abbrev two_tablets : Table
two_tablets = record { tablets = low ∷ high ∷ []; next_tablet_id = 3; epoch = 1 }

two_tablets-IsPartition : IsPartition two_tablets.tablets
unfolding lt_bytes
two_tablets-IsPartition = (refl, refl, (refl, refl))

two_tablets-AllReadable : AllReadable two_peers two_tablets.tablets
unfolding get_node_addr
two_tablets-AllReadable = (
  ((tt, tt), ((refl, tt), (refl, tt)), omega arith, (first_node, refl, ((refl, tt), (refl, tt)))),
  (
    (
      ((refl, tt), (refl, tt)),
      (tt, tt),
      omega arith,
      (second_node, refl, ((refl, tt), (refl, tt))),
    ),
    tt,
  ),
)

-- "2 1::m:h:9002 2:m::h:9003"
abbrev shards_text : Bytes
shards_text =
    b'2' ∷ b' ' ∷ b'1' ∷ b':' ∷ b':' ∷ b'm' ∷ b':' ∷ b'h' ∷ b':' ∷ b'9' ∷ b'0' ∷ b'0' ∷ b'2' ∷ b' '
    ∷ b'2' ∷ b':' ∷ b'm' ∷ b':' ∷ b':' ∷ b'h' ∷ b':' ∷ b'9' ∷ b'0' ∷ b'0' ∷ b'3' ∷ []

shards_run : handle_master_shards two_peers two_tablets ≡ st_ok ∷ shards_text
unfolding handle_master_shards shards_body get_node_addr to_string digits
shards_run = refl

parse_run : tablets_of_body shards_text ≡ some (map (cached two_peers) two_tablets.tablets)
unfolding tablets_of_body tablets_of_segments tablet_of_parts sort_by_start insert_by_start
    words_from split_colons span_digits signed_number read_unsigned skip_spaces get_node_addr
    to_string digits lt_bytes
parse_run = refl

tablets_of_body-shards_example :
    tablets_of_body (to_string 2 ++ (b' ' ∷ shards_body two_peers two_tablets.tablets true))
    ≡ some (map (cached two_peers) two_tablets.tablets)
tablets_of_body-shards_example =
    tablets_of_body-shards two_peers two_tablets.tablets two_tablets-IsPartition
      two_tablets-AllReadable (omega arith)

find_route-get_tablet_route_example :
    (r : Option Tablet) × (get_tablet_route two_tablets.tablets (b'p' ∷ []) ≡ some r)
    × (find_route (map (cached two_peers) two_tablets.tablets) (b'p' ∷ [])
        ≡ some (addr_of two_peers r))
find_route-get_tablet_route_example =
    find_route-get_tablet_route two_peers two_tablets.tablets (b'p' ∷ [])

-- Sockets that take everything at once, with one answer to come.
abbrev answering : Bytes → Socket
answering answer = record { received = bytes answer ∷ []; sends = taken 99 ∷ []; out = [] }

-- The data node at port 9003 answers the second request with the value "v".
abbrev value_answer : Bytes
value_answer = encode_response 2 st_ok (b'v' ∷ [])

abbrev toy_net : Network
toy_net = record {
  World = ℕ;
  socket = λ w. (some (answering value_answer), suc w);
  connect_socket = λ w s ip port. (true, s, w);
}

abbrev toy_client : LekvCli toy_net
toy_client = record {
  master_ip = host;
  master_port = 9001;
  proxy_conn = record { buf = []; fd = some (answering (encode_response 1 st_ok shards_text)) };
  req_id = 1;
  world = 0;
}

shards_asked :
    Carries toy_client.proxy_conn
      (answering (encode_response 1 st_ok shards_text))
      (shards_request toy_net toy_client)
      1
      st_ok
      shards_text
      []
unfolding send_loop encode_request
shards_asked = record {
  open_socket = refl;
  takes = refl;
  input = refl;
  in_time = omega arith;
  id_fits = omega arith;
  fits = omega arith;
}

value_asked :
    Carries
      (record { buf = []; fd = some (answering value_answer) })
      (answering value_answer)
      (encode_request 2 op_get (b'p' ∷ []) [])
      2
      st_ok
      (b'v' ∷ [])
      []
unfolding send_loop encode_request
value_asked = record {
  open_socket = refl;
  takes = refl;
  input = refl;
  in_time = omega arith;
  id_fits = omega arith;
  fits = omega arith;
}

p_owner : owner (b'p' ∷ []) two_tablets.tablets ≡ some high
unfolding owner lt_bytes
p_owner = refl

high_addr : get_node_addr two_peers 3 ≡ host ++ (b':' ∷ to_string 9003)
unfolding get_node_addr
high_addr = refl

connected_to_value :
    connect toy_net toy_client.world new_client host 9003
    ≡ (true, record { buf = []; fd = some (answering value_answer) }, 1)
unfolding connect
connected_to_value = refl

execute_get_example :
    (c' : LekvCli toy_net) × (execute toy_net toy_client (get_line (b'p' ∷ []))
      ≡ some (value_of (b'v' ∷ []), c'))
    × (c'.req_id ≡ 3)
execute_get_example =
    execute_get toy_net toy_client (answering (encode_response 1 st_ok shards_text))
      (answering value_answer) 1 two_peers two_tablets high host 9003 b'p' [] shards_text []
      (b'v' ∷ []) [] (refl, tt) shards_run shards_asked two_tablets-IsPartition
      two_tablets-AllReadable (omega arith) p_owner high_addr (refl, tt) (omega arith)
      connected_to_value value_asked

-- A client that prints its help, and exits before its last line.
two_lines_run :
    client_main toy_net
      (record { is_open = true; master = some (host, 9001); followers = none })
      0
      (help_command ∷ exit_command ∷ help_command ∷ [])
    ≡ some (0, help ∷ bye ∷ [])
unfolding client_main run init read_master_config execute skip_spaces span_word eq_bytes
two_lines_run = refl
