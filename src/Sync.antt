-- ===== src/Sync.antt =====
-- The bridge between the gossip layer and the cluster state, server/gossip/syncer.go.
pub mod Syncer
pub mod Startup
mod Examples
