-- ===== src/Lib.antt =====
-- A node of a sharded peer-to-peer network, over libp2p. Each node announces the set of shards
-- that it listens to on one pubsub topic, records the announcements of the others in a table,
-- finds peers of a shard in that table, and exchanges collations on a topic per shard. Peers ask
-- each other for the peers of shards over a request protocol; a user directs a node by a client.
--
-- The parts, and the files that model them (paths are from the repository's root):
-- - Shards, PrefTable: shardpreftable.go. A shard set is a byte string (ListeningShards); a table
--   maps peers to sets. Shards/View and PrefTable/View give their meaning, a predicate on shards
--   and a relation of peers and shards, and what it is to be well formed; PrefTable/Order takes
--   tables up to that relation, a quotient, and lists of peers up to their order. PrefTable/Store
--   has the pointers, and the steps of a call that read and write the map and a byte: two calls
--   for a new peer in Store/Race, two for one byte in Store/LostBit, and any number of calls for
--   recorded peers in Store/Recorded, Store/Steps and Store/Concurrent; Store/Loads splits
--   setShard at its byte.
-- - Text: the decimal texts of IDs and the names of topics (shardmanager.go, utils.go).
-- - Discovery: discovery.go. The interface of a discovery service is a record of two operations;
--   Discovery/Laws states the contract that the manager relies on.
-- - Manager: shardmanager.go. Its operations work on the state of State.Node by way of the
--   interface; Manager/Connect is the choice of peers to dial, Manager/Calm the absence of panics,
--   Manager/Sync the agreement of preferences and subscriptions over sequences of steps,
--   Manager/Readers the goroutine of a subscription, and Manager/Threads concurrent calls of
--   ListenShard and UnlistenShard, with Threads/Progress, and Manager/Subs concurrent calls of
--   SubscribeTopic and UnsubscribeTopic.
-- - Swarm: the announcements of many nodes, discovery.go and the handler of shardmanager.go joined
--   by the listening topic; Swarm/CatchUp is about late messages, and Swarm/Finding joins it to
--   FindPeers.
-- - Notifier: eventrpc.go; Messages: the structs of pb/message and pb/event; Peers and Hash:
--   utils.go.
-- - Requests: requests.go, with Requests/Wire, what a stream between two nodes does, and
--   Requests/Exchange, a request from its start to its answer. Bootstrap: bootstrap.go and
--   node.go.
-- - Rpc: the service of pb/rpc as an interface. Server: rpcserver.go, a function per RPC, and
--   Server/Service, which answers the interface; Server/Calm and Server/Broadcasts are about the
--   loops over shards and over collations, and Server/Receiving about the collations at another
--   node. Cli: cli.go and runClient of main.go, from the arguments to the call and to what is
--   printed; Cli/Sessions, Cli/Total and Cli/Searches join it to the server.
-- - Main: main.go, the flags and the start of a server; Main/Running says when it starts, and
--   Main/Sessions joins the start, the server and the client.
-- - State: the state of a node, node.go and shardmanager.go in one record.
-- - Outcome and Exec are the results of Go calls (a value, an error, a panic or Fatal) and of
--   methods that change the node; what was written before an error stays written.
-- - Network: libp2p and the random numbers, as an interface; its `World` is threaded through
--   calls.
-- - Fixtures and Tests: concrete instances and runs.
--
-- The functions are named as in the source, in snake case.
--
-- Numbers: IDs are integers, and conversions to byte wrap as in Go. The loop over shards runs
-- through its 100 IDs, the loop that drops peers as many rounds as the source computes; both are
-- structural. `strings.Replace` of the topic prefix runs on the length of its text as fuel, which
-- is enough since each round drops a byte.
--
-- A step of a thread in Manager/Threads is one call of the method, such as Advertise, although
-- that takes its locks several times: the executions are those in which such calls do not overlap.
-- A step in PrefTable/Store reads or writes the map or a byte in AddPeerListeningShard, and one in
-- Manager/Subs is a part of SubscribeTopic or UnsubscribeTopic. The three are not combined. In
-- Swarm an announcement enters the table and is published in one step, and a node handles at any
-- time any message that another one has published, so that messages can be lost, late, repeated
-- and out of order; it does not handle its own messages. The dials of connectShardNodes run after
-- the tests for connections, one of the orders that its goroutines can have.
--
-- Not modelled: the interleavings of other operations (each is one step; a goroutine that dials
-- runs when it is started), data races within a step, logging, the spans of tracing, time, the
-- sharing of byte slices between messages and tables, the generated marshalling code and gRPC
-- (parameters), and the deployment scripts.
pub mod Prelude
pub mod Outcome
pub mod Shards
pub mod PrefTable
pub mod Text
pub mod Exec
pub mod Network
pub mod State
pub mod Messages
pub mod Notifier
pub mod Discovery
pub mod Manager
pub mod Peers
pub mod Requests
pub mod Bootstrap
pub mod Server
pub mod Cli
pub mod Swarm
pub mod Hash
pub mod Rpc
pub mod Main
pub mod Fixtures
pub mod Tests
