-- ===== src/Kv.antt =====
-- The versioned key/value stores: kvsrv1/server.go with its clerk kvsrv1/client.go, kvraft1/server.go
-- with its clerk kvraft1/client.go, and the checker's model of models1/kv.go.
pub mod Server
pub mod StateMachine
pub mod Versions
pub mod Checker
pub mod Clerk
pub mod Replicated
pub mod Restore
pub mod Handlers
pub mod Failover
mod Examples
