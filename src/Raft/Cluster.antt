-- ===== src/Raft/Cluster.antt =====
-- A cluster of `n` peers of raft1/raft.go, over a network that loses and delays messages, with
-- crashes and restarts, and its elections.
pub mod Counting
pub mod System
pub mod Ballots
pub mod Tally
pub mod Goroutines
pub mod Invariant
pub mod Requests
pub mod Elections
pub mod Packets
pub mod Sending
pub mod Reigns
pub mod Succession
pub mod Advances
pub mod Matching
