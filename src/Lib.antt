-- ===== src/Lib.antt =====
-- A verification library for Geryon, a proxy that pools connections to PostgreSQL, MySQL and SQL
-- Server. It models the parts that keep state of their own, and leaves aside those that relay bytes.
--
-- The parts, and how they interact:
--   * Cache models internal/cache/store.go, the cache of query results: `Store`, an LRU list with
--     expiry under a memory limit. `Cache` has the state and one function for each method; `Spec` is
--     an abstract recency list, which `Refinement` relates to the store; `Laws` is what a client sees.
--   * Raft models internal/raft/raft.go, the consensus of the proxies on their configuration. `Types`
--     has the node and the messages, `Log`, `Election`, `Replication` and `Snapshot` the handlers, and
--     `Step` the event loop. A handler is a function from the node before to the node after, with
--     what it sends in `outbox`. `Wal` is the log file of wal.go, byte by byte, and `Machine` the state
--     machine of fsm.go. `Terms`, `Ballots`, `Majority`, `Commit` and `Matching` are proofs.
--   * Pool models internal/pool: `Breaker` is `BackendHealth` of health.go, `Conns` is
--     `serverConnPool` and `Waiting` is `WaitQueue` of pool.go, `Transactions` is
--     `TransactionManager` of transaction.go, and `Memory` the accounts of manager.go. `Backends`
--     is the servers of a pool, their selection and their changes, and `Supply` is `Acquire`,
--     `Release` and the making of a connection in pool.go, over all of these: a connection that is
--     released goes to the queue first, and to the idle list when nobody waits. `Sessions` is the
--     clients' sessions of session.go under the strategies of strategy.go, with the calls that
--     internal/proxy/listener.go makes of them, from start-up to the disconnect; the pool is there what
--     a session sees of it. The calls are taken one after another, except in `Races`.
--     `Router` is the choice of a backend for a query in routing.go, which asks Tokenizer.
--   * Stmt models internal/stmt/cache.go: the cache of prepared statements, what is prepared on each
--     connection, and the map of statement names to server IDs.
--   * Swim models internal/swim/swim.go, which tells the proxies who is in the cluster: `Handlers` has
--     the messages, `Probes` the loops on timers, `Step` all of it. `Keeping` and `Incarnations` are
--     about what a node knows of a member, `Deaths` and `Silence` about who is alive.
--   * Protocol models the buffer of internal/protocol/common/message.go, with which the three codecs
--     read and write messages.
--   * Tokenizer models how internal/tokenizer/tokenizer.go classifies a query, and `Statements` shows that
--     its first statement decides.
--   * Base has what these share: tests on numbers and texts, lists, and Go's maps.
--
-- A method that holds its mutex for its whole body is one function from the state before to the state
-- after; calls of several goroutines are a list of such steps. The clock is an argument. Maps are
-- association lists with each key once, and where `range` visits a map the list is its order.
-- `uint64` wraps where the source adds to it; `int64` sizes, durations and `int` counters are numbers
-- that are never negative. The loops of `Set` and `Put` that evict run on fuel, the length of their
-- list, which is enough since each round takes one element off it. The loops that read the log file run on
-- one more than it has bytes; Wal.Fuel is about that.
--
-- What the code reads from outside is an argument: in Raft `Disk` says which writes to the log file,
-- the snapshots and the state machine succeed, and a message whose payload is `none` is one that
-- cannot be parsed; in Pool the outcome of a connection's reset is one. Timers are events.
--
-- Not modelled: networking and TLS, the codec of each protocol, the rest of the listener, authentication,
-- the configuration files, the APIs and the dashboard, logging and metrics, which are input and output;
-- the cluster's messages, snapshots on disk, restart, the hints of routing and the rest of the tokenizer,
-- which are not part of the library yet.
pub mod Base
pub mod Cache
pub mod Pool
pub mod Protocol
pub mod Raft
pub mod Stmt
pub mod Swim
pub mod Tokenizer
