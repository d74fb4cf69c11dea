-- ===== src/Net.antt =====
-- The simulated network of labrpc/labrpc.go, over which the tests run clients and servers.
pub mod Service
pub mod Names
pub mod Network
pub mod Delays
pub mod Calls
pub mod Once
mod Examples
