-- ===== src/Cli/Fetch.antt =====
-- FetchRouteTable against a master: the client's table is the master's, and its routes are the
-- owners' addresses.
use le_kv.Base.{
  ℕ, ◌<◌, true, some, List, [], ◌∷◌, ◌++◌, ◌==◌, ◌≡◌, refl, ap, ◌∙◌, arith, length, map,
}
use le_kv.Bytes.{Bytes}
use le_kv.Dispatch.{get_node_addr, shards_body, handle_master_shards}
use le_kv.Dispatch.Decimal.{to_string}
use le_kv.Protocol.{encode_request, op_shards, st_ok}
use le_kv.Protocol.RoundTrip.{response_payload}
use le_kv.Routing.{PeerInfo, Table, Tablet}
use le_kv.Routing.Partition.{IsPartition, owner, contains}
use le_kv.Routing.Route.{get_tablet_route-owner}
use le_kv.Cli.{CachedTablet, Socket, RpcClient, is_connected, find_route, tablets_of_body}
use le_kv.Cli.Exchange.{Carries, Exchanged, send_and_recv-Carries}
use le_kv.Cli.Route.{cached, addr_of, find_route-get_tablet_route}
use le_kv.Cli.Session.{
  Network, LekvCli, next_req_id, send_twice, table_of_reply, fetch_connected, fetch_route_table,
}
use le_kv.Cli.Shards.{AllReadable, tablets_of_body-shards}

-- On a partition FindRoute gives every key the address of the one tablet that contains it.
find_route-owner :
    (peers : List PeerInfo) (ts : List Tablet) (key : Bytes)
    → IsPartition ts
    → (t : Tablet) × (owner key ts ≡ some t)
      × (contains t key ≡ true)
      × (find_route (map (cached peers) ts) key ≡ some (some (get_node_addr peers t.node_id)))
find_route-owner peers ts key c =
    let (t, r, o, k, _u) = get_tablet_route-owner ts key c in
    let (r', g, f) = find_route-get_tablet_route peers ts key in
    let same : r' ≡ some t = cc in (t, o, k, f ∙ ap (λ x. some (addr_of peers x)) same)

-- A partition is not empty, so its copy is not.
table_of_reply-some :
    (rid : ℕ) (value : Bytes) (out : List CachedTablet) (t : CachedTablet) (ts : List CachedTablet)
    → tablets_of_body value ≡ some (t ∷ ts)
    → table_of_reply rid (rid, response_payload st_ok value) ≡ some (some (t ∷ ts))
unfolding table_of_reply
table_of_reply-some rid value out t ts e =
    let same : (rid == rid) ≡ true = ground arith in ground (arith, same, e)

table_of_reply-shards :
    (peers : List PeerInfo) (ts : List Tablet) (rid : ℕ) (value : Bytes)
    → IsPartition ts
    → tablets_of_body value ≡ some (map (cached peers) ts)
    → table_of_reply rid (rid, response_payload st_ok value) ≡ some (some (map (cached peers) ts))
table_of_reply-shards peers [] rid value c e = absurd c
table_of_reply-shards peers (t ∷ ts) rid value c e = table_of_reply-some rid value [] _ _ e

module _ (net : Network) (c : LekvCli net) where
  -- FetchRouteTable's request.
  abbrev pub shards_request : Bytes
  shards_request = encode_request c.req_id op_shards [] []

  -- The client after its request, with what is left of its connection.
  abbrev pub with_proxy : RpcClient → LekvCli net
  with_proxy p = record (next_req_id net c) { proxy_conn = p }

module _ (net : Network) (c : LekvCli net) (s : Socket) (value rest : Bytes) where
  send_twice-first :
      Carries c.proxy_conn s (shards_request net c) c.req_id st_ok value rest
      → (p : RpcClient) × (send_twice net (next_req_id net c) (shards_request net c)
          ≡ some (some (c.req_id, response_payload st_ok value), with_proxy net c p))
        × Exchanged p s (shards_request net c) rest
  unfolding send_twice
  send_twice-first k =
      let (p, e, x) =
        send_and_recv-Carries (c.proxy_conn) s (shards_request net c) (c.req_id) st_ok value rest
          k in
      (p, rw e refl, x)

  -- A client that is connected to a master, asks it for the shards, and finds the master's answer next
  -- on the connection, has the master's table with the addresses of its nodes, and FindRoute gives
  -- every key the address of the node that keeps the one tablet that contains it: if the master's
  -- tablets cut the key space, are fewer than 2^64, and are readable.
  pub fetch_route_table-owner :
      (peers : List PeerInfo) (table : Table) (key : Bytes)
      → handle_master_shards peers table ≡ st_ok ∷ value
      → Carries c.proxy_conn s (shards_request net c) c.req_id st_ok value rest
      → IsPartition table.tablets
      → AllReadable peers table.tablets
      → length table.tablets < 18446744073709551616
      → (p : RpcClient) × Exchanged p s (shards_request net c) rest
        × (fetch_route_table net c
            ≡ some (some (map (cached peers) table.tablets), with_proxy net c p))
        × ((t : Tablet) × (owner key table.tablets ≡ some t)
            × (contains t key ≡ true)
            × (find_route (map (cached peers) table.tablets) key
                ≡ some (some (get_node_addr peers t.node_id))))
  unfolding fetch_route_table fetch_connected handle_master_shards
  fetch_route_table-owner peers table key m k cut a h =
      let (p, e, x) = send_twice-first k in
      let body = tablets_of_body-shards peers (table.tablets) cut a h in
      let same : to_string (length table.tablets) ++ (b' ' ∷ shards_body peers table.tablets true)
          ≡ value =
        cc in
      let reply =
        table_of_reply-shards peers (table.tablets) (c.req_id) value cut (rw same at body) in
      let opened = k.open_socket in
      let connected : is_connected c.proxy_conn ≡ true = rw opened refl in
      (p, x, rw (connected, e, reply) refl, find_route-owner peers (table.tablets) key cut)
