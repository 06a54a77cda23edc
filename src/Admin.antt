-- ===== src/Admin.antt =====
-- The admin server, server/admin: its sessions, its routes and their middleware.
pub mod Password
pub mod Login
pub mod Server
mod Examples
