-- ===== src/Wire.antt =====
-- The connections between the server and its clients: yamux frames over a WebSocket.
pub mod Yamux
pub mod WebSocket
mod Examples
