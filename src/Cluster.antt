-- ===== src/Cluster.antt =====
-- A master and its data nodes together: what a migration of kv/raft_node.cpp does to the entries.
pub mod Codec
pub mod Nodes
pub mod Transfer
pub mod Scan
pub mod Stored
pub mod Migrate
pub mod Served
pub mod Put
pub mod Balance
pub mod Toy
mod Tests
