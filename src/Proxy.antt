-- ===== src/Proxy.antt =====
-- The proxy of a node, server/proxy, with the middleware of its requests, pkg/middleware/auth.go.
pub mod Request
pub mod Http
pub mod Server
mod Examples
