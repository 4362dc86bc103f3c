-- ===== src/Lib.antt =====
-- LeKV, a sharded key-value store: a model of its master, its data nodes, their protocol and their
-- storage, with theorems on what they do.
--
-- A master (port 9001) keeps a routing table of tablets, intervals of keys with the node that keeps
-- them, in memory and in tablets.json. Data nodes keep the entries in LevelDB. A client asks the
-- master for the route of a key (GET_ROUTE, SHARDS) and a data node for its entries (GET, PUT,
-- DELETE). A thread of the master asks the data nodes for statistics, splits a large tablet at its
-- median key and moves a tablet from the most to the least loaded node: it scans the source, puts
-- each entry on the destination, changes the table, and deletes the range on the source. All of them
-- talk in the frames of the binary protocol.
--
-- The files, and the code that each is about:
--   Base        names of the libraries, tests on numbers, lists with native lengths, options
--   Bytes       strings and byte vectors; Order: their order; Endian: htons, htonl, ntohs, ntohl
--   Exec        methods that change an object, or are undefined
--   Protocol    src/rpc/binary_protocol.cpp and .h
--   Rpc         src/rpc/rpc_client.cpp: RecvAll, RecvFrame and Send, over the results of recv and send;
--               Connect and Close are in Cli
--   Server      src/rpc/rpc_server.cpp: BinaryRpcServer::HandleClient; Answers: what a server does,
--               without its stream; KeyValue: a data node behind it
--   RpcServer   src/rpc/rpc_server.cpp: ServerStart, Stop, AcceptLoop and the loops of HandleClient, as
--               threads that interleave; Shut: the connections; Stops: the end of Stop
--   TextRpc     src/rpc/text_protocol.cpp and TextRpcServer::HandleClient of src/rpc/rpc_server.cpp
--   Cli         src/lekv_cli.cpp: Session: FetchRouteTable; Commands: DoDataNodeRequest and Execute;
--               Loop: Run and main; Text: the text functions of the standard library that it uses
--   Queue       src/logger/spsc_queue.cpp and .h, bit_ceil of src/common/common.h; Steps: a producer
--               and a consumer
--   TypeTags    src/logger/type_tag.h and type_tag.cpp
--   Storage     src/storage/storage_engine.cpp, over the interface Api of LevelDB
--   Routing     PeerInfo and Tablet of src/common/common.h; of src/kv/raft_node.cpp: FindTabletIndex,
--               GetTabletRoute, BuildInitialTablets
--   DataNode    src/kv/raft_node.cpp: HandleDataNode..., DataNodeGetTabletStats
--   Master      src/kv/raft_node.cpp: QueryTabletStats, SendDeleteRange, SaveTablets, LoadTablets, over
--               the interface Interface of connections, files, the clock and JSON
--   Balancer    src/kv/raft_node.cpp: TrySplitTablet
--   Migration   src/kv/raft_node.cpp: SyncAllTabletStats, ScanAndTransferData, MigrateTablet,
--               DoLoadBalance
--   Rounds      src/kv/raft_node.cpp: BalancerLoop
--   Cluster     the master's requests to data nodes that are up: a migration of src/kv/raft_node.cpp
--               from its SCAN_RANGE on to the DELETE_RANGE, with the handlers of both nodes
--   Boot        src/lekv.cpp up to the constructor of the node, the configuration of
--               src/common/common.h, and the constructor of src/kv/raft_node.cpp
--   Lifecycle   Run and Stop of src/kv/raft_node.cpp with the threads of src/lekv.cpp
--   Dispatch    src/kv/raft_node.cpp: HandleBinaryRequest, HandleMasterGetRoute, HandleMasterShards,
--               GetNodeAddr
-- A definition has the name of its function in snake_case. A part of a function that is a
-- definition of its own says which part it is. Files named Tests run the definitions on inputs.
--
-- State. The routing table is the record Table, the master the record Master, whose world stands for
-- the sockets, the file and the clock. Methods of the master are state passing, in do blocks, in the
-- order of the source's calls. A read outside a vector and an exception that nothing catches are
-- `none`; where a function also has a result false or an empty optional, that is an inner `none`.
-- Bytes are numbers; casts and unsigned arithmetic that can wrap are written with u8, u16, u32 and
-- u64, the remainders by powers of two.
--
-- Threads. The threads of the RPC server, those of a node that ends, and the two sides of the queue
-- each have a place in their code; a step of one thread is one constructor of a relation, and the
-- steps come in any order. In Cluster the data nodes answer in time, as their handlers do.
--
-- Fuel. The binary search of FindTabletIndex has as much fuel as the table has tablets, which is
-- enough since each round makes the interval shorter. The loop of ScanAndTransferData has as many
-- rounds as the scan's count says, like the source's, and SyncAllTabletStats one for each tablet,
-- since no request changes their number. RecvAll recurs on what its socket returns, and at the end
-- of that the peer has closed. The loop of HandleClient has as many rounds as `running_` is tested
-- and true. BalancerLoop has as many rounds as `balancer_running_` is tested and true, and its
-- loop of splits as many tests of its condition as it is given, since what the data nodes answer
-- decides when it ends. bit_ceil's loop has seven rounds of fuel and makes six. `std::to_string`
-- has twenty digits, enough for 64 bits.
--
-- Left out: printing, sleeping, the options and addresses of sockets, the client's prompt and what
-- its messages say (lekv_cli.cpp), the header of the logger's records (log_record.h), which no
-- code writes or reads, the reading of JSON, and transfer_time.json. In RpcServer a descriptor
-- number stands for its connection. The request threads of the master read the table while the
-- balancer writes it, without a lock; a request here sees one state of the table.
-- The positions of the queue are atomic: each is read or written in one step, and a copy is
-- visible when the step after it publishes a position. LevelDB, the connections, the client's
-- sockets, the file system and nlohmann's JSON are parameters with what their documentation
-- promises; Storage.Sorted, Master.Toy and Cluster.Toy are instances. An iterator of LevelDB meets
-- no error. A write of tablets.json may leave a first part of the text. In Lifecycle a wait wakes
-- only when it is notified, and the server's Stop is one step, that of its return; RpcServer has
-- the threads of the server.
pub mod Base
pub mod Bytes
pub mod Protocol
pub mod Storage
pub mod Routing
pub mod DataNode
pub mod Exec
pub mod Master
pub mod Balancer
pub mod Migration
pub mod Dispatch
pub mod Rpc
pub mod Server
pub mod Queue
pub mod Cli
pub mod Rounds
pub mod TextRpc
pub mod Cluster
pub mod RpcServer
pub mod Boot
pub mod Lifecycle
pub mod TypeTags
