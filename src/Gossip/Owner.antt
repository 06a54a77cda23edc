-- ===== src/Gossip/Owner.antt =====
-- What the operations on the local node keep: its own state, and every copy of it.
pub mod Write
pub mod Compaction
pub mod History
