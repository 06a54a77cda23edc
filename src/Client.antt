-- ===== src/Client.antt =====
-- The Go client, client: its addresses, connecting to the server, listening and forwarding.
pub mod Url
pub mod Upstream
pub mod Dialer
pub mod Listener
mod Examples
