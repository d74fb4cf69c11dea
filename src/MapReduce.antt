-- ===== src/MapReduce.antt =====
-- The MapReduce library: the coordinator, mr/coordinator.go with mr/rpc.go, and the work of
-- mr/worker.go.
pub mod Coordinator
pub mod Phases
pub mod Assignment
pub mod Worker
pub mod Buckets
pub mod Order
pub mod Groups
mod Examples
