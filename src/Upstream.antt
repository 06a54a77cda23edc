-- ===== src/Upstream.antt =====
-- The upstreams connected to the local node, server/upstream.
pub mod Balancer
pub mod Manager
pub mod Server
mod Examples
