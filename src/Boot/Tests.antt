-- ===== src/Boot/Tests.antt =====
-- The start of a master and of a data node of the configuration that comes with the program.
use le_kv.Base.{true, none, some, List, [], ◌∷◌, ◌≡◌, refl, arith}
use le_kv.Bytes.{Bytes}
use le_kv.Routing.{PeerInfo}
use le_kv.Master.{Master}
use le_kv.Master.Toy.{dump_only-same}
use le_kv.Cluster.Toy.{cluster_env}
use le_kv.Boot.{
  ConfigFile, read_master_config, followers_from, read_followers_config, find_self_node_id,
  read_peers, port_of, main_start, exits, constructs, construct_master, connect_all,
}
use le_kv.Boot.Peers.{IsCluster, IsPeer, main_start-IsCluster}
use le_kv.Boot.Construct.{first_table, Constructed, construct_master-Constructed}

abbrev local : Bytes
local = b'l' ∷ []

abbrev config : ConfigFile
config = record {
  is_open = true;
  master = some (local, 9001);
  followers = some ((local, 9002) ∷ (local, 9003) ∷ []);
}

abbrev peers : List PeerInfo
peers =
    record { id = 1; ip = local; port = 9001 }
    ∷ record { id = 2; ip = local; port = 9002 }
    ∷ record { id = 3; ip = local; port = 9003 }
    ∷ []

second_starts : main_start true (λ arg. some 9003) ([] ∷ []) config ≡ constructs 3 9003 peers
unfolding main_start port_of read_peers read_master_config read_followers_config followers_from
    find_self_node_id
second_starts = refl

unknown_port : main_start true (λ arg. some 9004) ([] ∷ []) config ≡ exits 1
unfolding main_start port_of read_peers read_master_config read_followers_config followers_from
    find_self_node_id
unknown_port = refl

main_start-IsCluster_example : IsCluster peers × IsPeer 3 9003 peers
main_start-IsCluster_example =
    main_start-IsCluster true (λ arg. some 9003) ([] ∷ []) config 3 9003 peers second_starts

abbrev new_master : Master (cluster_env first_table)
new_master = record {
  table = record { tablets = []; next_tablet_id = 3; epoch = 1 };
  world = record {
    file = none;
    nodes = λ id. record { port = 9002; peers = []; table = first_table; storage = none };
  };
  transfer_count = 0;
  transfer_time_ms = 0;
}

peers-IsCluster : IsCluster peers
peers-IsCluster = omega arith

construct_master-Constructed_example :
    (m : Master (cluster_env first_table)) × (construct_master
        (cluster_env first_table)
        (λ p w. w)
        peers
        new_master
      ≡ some (tt, m))
    × Constructed
        (cluster_env first_table)
        ((cluster_env first_table).file
          (connect_all (cluster_env first_table) (λ p w. w) peers new_master.world))
        m.table
construct_master-Constructed_example =
    construct_master-Constructed (cluster_env first_table) (λ p w. w) peers new_master (7 ∷ [])
      peers-IsCluster (omega arith) refl (dump_only-same first_table)

-- The master saves its first table, and starts again.
abbrev saving : Master (cluster_env first_table)
saving = record new_master { table = first_table }
