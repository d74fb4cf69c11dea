-- ===== src/Shard.antt =====
-- The configurations of the sharded service: shardkv1/shardcfg/shardcfg.go.
pub mod Config
pub mod Groups
pub mod Assigned
pub mod Extremes
pub mod Potential
pub mod Sorted
pub mod Balance
mod Examples
