-- ===== src/Harness.antt =====
-- The test service of raft1, raft1/server.go, the checks of raft1/test.go, and the groups of servers
-- and the clients of tester1.
pub mod Applier
pub mod Checks
pub mod Agreement
pub mod Group
pub mod Isolation
pub mod Clients
mod Examples
