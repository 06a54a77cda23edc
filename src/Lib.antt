-- ===== src/Lib.antt =====
-- Piko: a reverse proxy whose server nodes find each other by gossip.
--
-- An upstream listens on an endpoint at one server node. That node counts its listeners in its
-- cluster state and publishes the counts as keys of its gossip state. Gossip copies the keys to the
-- other nodes, where a syncer turns them into entries of their own cluster state, by which a node
-- forwards requests to the node that has an upstream.
--
--   Gossip    pkg/gossip/state.go. `State` has the types (clusterState, nodeState, Entry, digest,
--             delta), `Local` the queries, UpsertLocal, DeleteLocal and LeaveLocal, `Compact`
--             CompactLocal, `Exchange` Digest, Delta and LocalDelta, `Remote` ApplyDigest and
--             ApplyDelta, `Expiry` RemoveExpiredAt and UpdateLiveness. `Order`, `Tracks`, `Owner`
--             and `Relay` are the theory of an owner's state and of the copies of it. `Detector` is
--             pkg/gossip/failuredetector.go. `Protocol` is pkg/gossip/protocol.go, the packets;
--             `Listener` is pkg/gossip/listener.go, what a node does with a packet or a stream; and
--             `Rounds` is pkg/gossip/gossip.go: the rounds, Join and Leave.
--   Cluster   server/cluster/state.go and node.go: State with every operation.
--   Upstream  server/upstream/manager.go and upstream.go: the load balancer and the manager, which
--             calls the cluster state. `Server` is server/upstream/server.go: the route of an
--             upstream service, its name, the sessions and the rebalancing.
--   Sync      server/gossip/syncer.go: the handlers that the gossip state calls (Watcher of
--             pkg/gossip/watcher.go) and the publication of local endpoints.
--   Auth      pkg/auth/verifier.go and multi_tenant_verifier.go: tokens and tenants. `Claims` is
--             pkg/auth/jwtverifier.go, `Config` is pkg/auth/config.go.
--   Admin     server/admin: `Password` has the signed sessions, `Login` the login, the logout and the
--             middleware of sessions (all password.go), `Server` the routes of server.go and
--             reverseproxy.go with the middleware before them.
--   Proxy     server/proxy: `Request` has the endpoint of a request and pkg/middleware/auth.go,
--             `Http` both proxies (httpproxy.go, tcpproxy.go), which select from the manager, and
--             `Server` the routes (server.go).
--   Wire      pkg/yamuxconn/conn.go and pkg/websocket/conn.go: the connections to the clients.
--   Backoff   pkg/backoff/backoff.go.
--   Client    client: `Url` the addresses, `Upstream` connecting again and again (upstream.go),
--             `Listener` the sessions of a listener and the loop of a forwarder (listener.go and
--             forwarder.go), `Dialer` dialer.go.
--   Config    server/config, pkg/log/config.go and pkg/gossip/config.go: the validation.
--             `Agent` is agent/config/config.go, `Forward` forward/config/config.go.
--   Lifecycle server/server.go: the start and the shutdown of a node, with what its `State` and
--             `Ended` say of servers that end of themselves, and in `Verifiers` the verifiers
--             that NewServer makes; `Sync.Startup` is JoinOnStartup of server/gossip/gossip.go.
--   Prelude   what these share: maps, decimal text, the int type, results, lists and tests.
--
-- A method is a function from the state before to the state after, with the calls that it makes of
-- other parts (watcher, gauges, failure detector, subscribers, gossiper) as a list of effects in
-- order. `none` as a result is a panic. A method holds its mutex from end to end and is one step. The
-- clock is read once in a call and is an argument. Log lines are left out.
--
-- A Go map is an association list. Its order stands for the order of a range over the map, which the
-- runtime chooses; theorems speak of every list. A nil map is the empty map. sort.Slice is an
-- insertion sort, and differs from it only between entries of one version. A version is a uint64
-- whose increment wraps at 2 ^ 64; an int wraps at 2 ^ 63; a time is a number of nanoseconds, where 0
-- is the zero time; the durations of the configuration and of the backoff are int64. Upstreams and subscribers are compared by a number that stands for the pointer.
-- Whether the failure detector's level of a node is above the threshold is a parameter of
-- UpdateLiveness, and the arithmetic of float64 one of the failure detector and of the upstream server.
--
-- A failure is a value: `Result` has an error or a value, and a handler of a packet returns the state,
-- its outputs in order, and the error. The msgpack codec, the JWT library, the WebSocket, yamux, the
-- dialer, the resolver and net/http are parameters; where a theorem relies on one of them, its
-- hypotheses say on what. The headers of a request are a map by the name in lower case.
--
-- Three parts run on fuel. The loops that decode a packet take the number of its bytes, and each round
-- takes a byte at least, so that they end before it is spent. The loop of the WebSocket's Read takes
-- rounds, of which one more than there are messages is enough. Decimal text is printed with a fuel
-- above the number, and has fewer digits. All else is structural on its lists; the walk along a
-- claim's path is structural on the claims.
--
-- The nets of `Gossip.Relay.Net` have one node and the copies of its state at any number of peers, by a
-- number. A digest stays in flight and may be answered by the node and the peers any number of times,
-- at any time, with what they hold; each answer stays in flight and may be received any number of
-- times, in part. A peer forgets the node only when neither a delta of it to the peer nor a digest of
-- the peer is in flight: `Gossip.Remote.Rediscovery` shows what happens otherwise. Many nodes are
-- many such nets, since a delta of one node changes the copies of that node only.
--
-- Not modelled: the router and the pages of the admin server, the flags and defaults of the
-- configuration, the files of certificates, metrics and logs, the accept loops and timers of the
-- servers, the proxies of the agent, the copying of the client and the command line, which are
-- network I/O, wiring, or calls of third-party libraries.
pub mod Prelude
pub mod Gossip
pub mod Cluster
pub mod Upstream
pub mod Sync
pub mod Admin
pub mod Auth
pub mod Wire
pub mod Proxy
pub mod Backoff
pub mod Config
pub mod Client
pub mod Lifecycle
