-- ===== src/Rsm.antt =====
-- The replicated state machine layer, kvraft1/rsm/rsm.go, over any service and any Raft.
pub mod Layer
pub mod Answers
pub mod Waiting
mod Examples
