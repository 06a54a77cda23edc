-- ===== src/Cluster.antt =====
-- The cluster as the local node sees it, server/cluster.
pub mod State
mod Examples
