-- ===== src/Lock.antt =====
-- The distributed lock over the key/value server: kvsrv1/lock/lock.go.
pub mod Client
pub mod System
pub mod Ownership
pub mod MutualExclusion
mod Examples
