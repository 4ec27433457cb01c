-- ===== src/Pool.antt =====
-- internal/pool: `Breaker` is the circuit breaker of health.go, `Conns` the server connections and
-- `Waiting` the wait queue of pool.go, `Transactions` the transaction manager of transaction.go,
-- `Memory` the accounts of manager.go, `Backends` the servers of a pool and how one is selected,
-- `Supply` the connections that a pool makes, hands out and takes back, and `Sessions` the clients'
-- sessions of session.go with the strategies of strategy.go. `Router` is the router of routing.go.
pub mod Breaker
pub mod Conns
pub mod Waiting
pub mod Transactions
pub mod Memory
pub mod Backends
pub mod Supply
pub mod Sessions
pub mod Router
mod Tests
