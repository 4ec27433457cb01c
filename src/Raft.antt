-- ===== src/Raft.antt =====
-- internal/raft/raft.go: a Raft node, as the state that its handlers read and write. `Types` has the
-- state and the messages, `Log`, `Election`, `Replication` and `Snapshot` the operations, `Step` the
-- event loop, `Wal` the log file of wal.go, `Machine` the state machine of fsm.go; the modules below those prove what they keep.
pub mod Types
pub mod Log
pub mod Election
pub mod Replication
pub mod Snapshot
pub mod Step
pub mod Wal
pub mod Machine
pub mod Identity
pub mod Terms
pub mod Voting
pub mod Ballots
pub mod Majority
pub mod Commit
pub mod Matching
mod Tests
