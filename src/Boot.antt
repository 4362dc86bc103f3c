-- ===== src/Boot.antt =====
-- The start of a node: lekv.cpp, the configuration in common/common.h, and the constructor of RaftNode
-- in kv/raft_node.cpp.
pub mod Peers
pub mod Construct
pub mod Restart
mod Tests
use le_kv.Base.{
  ℕ, suc, ◌+◌, Bool, true, false, not, Option, none, some, List, [], ◌∷◌, ◌==◌, ltb, if◌then◌else◌,
  length, ◌>>=◌,
}
use le_kv.Bytes.{Bytes}
use le_kv.Bytes.Endian.{u16}
use le_kv.Exec.{Exec, pure}
use le_kv.Exec
use le_kv.Routing.{PeerInfo, Table, leader_port, build_initial_tablets}
use le_kv.Master.{Master, load_tablets, save_tablets}
use le_kv.Master.Interface.{Env}
use le_kv.Storage.Api.{LevelDb}
use le_kv.Dispatch.{Node}

abbrev pub master_id : ℕ
master_id = 1

abbrev pub master_port : ℕ
master_port = 9001

abbrev pub follower_id_start : ℕ
follower_id_start = 2

-- config.json, as the stream and nlohmann's JSON give it: whether it can be opened, IP and PORT of
-- MASTER_CONFIG, and those of each entry of FOLLOWER_CONFIG; `none` where the library throws.
pub record ConfigFile : Type 0 where
  pub is_open : Bool
  pub master : Option (Bytes × ℕ)
  pub followers : Option (List (Bytes × ℕ))

-- read_master_config; `none` is an exception.
unfoldable pub read_master_config : ConfigFile → Option PeerInfo
read_master_config file = if not file.is_open then none else do
  config ← file.master
  if not (config.1 == master_port)
      then none
      else some (record { id = master_id; ip = config.0; port = config.1 })

-- The loop of read_followers_config, from a value of `FOLLOWER_ID_START` on.
unfoldable pub followers_from : ℕ → List (Bytes × ℕ) → Option (List PeerInfo)
followers_from id [] = some []
followers_from id (config ∷ rest) =
    let more = followers_from (id + 1) rest in
    if config.1 == master_port then none else (do
      followers ← more
      some (record { id = id; ip = config.0; port = config.1 } ∷ followers))

-- read_followers_config
unfoldable pub read_followers_config : ConfigFile → Option (List PeerInfo)
unfolding followers_from
read_followers_config file =
    if not file.is_open
    then none
    else do configs ← file.followers; followers_from follower_id_start configs

-- find_self_node_id
unfoldable pub find_self_node_id : List PeerInfo → ℕ → Option ℕ
find_self_node_id [] self_port = none
find_self_node_id (peer ∷ peers) self_port =
    if peer.port == self_port then some peer.id else find_self_node_id peers self_port

-- What `main` comes to: its result, or a node that it constructs.
pub data Start : Type 0 where
  exits : ℕ → Start
  constructs : (node_id port : ℕ) → List PeerInfo → Start

-- The port of the arguments behind the program's name; `stoul` throws or gives an unsigned long.
unfoldable pub port_of : (Bytes → Option ℕ) → List Bytes → Option ℕ
port_of stoul [] = some master_port
port_of stoul (arg ∷ args) = do port ← stoul arg; some (u16 port)

-- The peers: the master and the followers.
unfoldable pub read_peers : ConfigFile → Option (List PeerInfo)
unfolding read_master_config read_followers_config
read_peers file = do
  master ← read_master_config file
  followers ← read_followers_config file
  some (master ∷ followers)

abbrev pub start_at : ℕ → Option (List PeerInfo) → Start
start_at port none = exits 1
start_at port (some peers) = elim (find_self_node_id peers port) [
  | none ↦ exits 1
  | some node_id ↦ constructs node_id port peers
]

-- `main`, up to the constructor of the node; `signals` says whether std::signal succeeded.
unfoldable pub main_start : Bool → (Bytes → Option ℕ) → List Bytes → ConfigFile → Start
unfolding port_of read_peers find_self_node_id
main_start signals stoul args file =
    if ltb 1 (length args)
    then exits 0
    else if not signals
    then exits 1
    else elim (port_of stoul args) [ none ↦ exits 1 | some port ↦ start_at port (read_peers file) ]

module _ (env : Env) where
  -- The rest of the constructor on the master, after LoadTablets.
  unfoldable pub unless_loaded : List PeerInfo → Bool → Exec (Master env) (Unit {0})
  unless_loaded peers true m = pure tt m
  unless_loaded peers false m =
      build_initial_tablets peers m.table >>= λ table. save_tablets env (record m { table = table })

module _ (env : Env) (connect : PeerInfo → env.World → env.World) where
  -- The master's connections to the data nodes: Connect, and its client kept if it succeeds.
  unfoldable pub connect_all : List PeerInfo → env.World → env.World
  connect_all [] w = w
  connect_all (peer ∷ peers) w =
      connect_all peers (if peer.port == leader_port then w else connect peer w)

  -- The constructor of RaftNode on the master.
  unfoldable pub construct_master : List PeerInfo → Exec (Master env) (Unit {0})
  unfolding connect_all unless_loaded
  construct_master peers m =
      (Exec.◌>>=◌ (load_tablets env) (unless_loaded env peers))
        (record m { world = connect_all peers m.world })

-- The constructor of RaftNode on a data node: its database, or none if it cannot be opened.
unfoldable pub construct_data_node :
    (level : LevelDb) → Option level.Db → ℕ → List PeerInfo → Node level
construct_data_node level opened port peers = record {
  port = port;
  peers = peers;
  table = record { tablets = []; next_tablet_id = 3; epoch = 1 };
  storage = opened;
}
