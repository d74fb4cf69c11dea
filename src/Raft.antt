-- ===== src/Raft.antt =====
-- One Raft peer: raft1/raft.go, with tester1/persister.go. The mutex makes each handler, and each
-- stretch of a goroutine between taking and releasing it, one step.
pub mod State
pub mod Persist
pub mod Election
pub mod Append
pub mod Compaction
pub mod Leader
pub mod Apply
pub mod Peer
pub mod Saves
pub mod Durability
pub mod Commit
pub mod Snapshots
pub mod Delivery
pub mod Replication
pub mod Votes
pub mod Books
pub mod Cluster
mod Examples
