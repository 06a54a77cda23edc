-- ===== src/Gossip.antt =====
-- The gossip layer, pkg/gossip: the state that each node keeps of the cluster, and how it spreads.
pub mod State
pub mod Local
pub mod Compact
pub mod Exchange
pub mod Remote
pub mod Expiry
pub mod Detector
pub mod Protocol
pub mod Listener
pub mod Rounds
pub mod Order
pub mod Tracks
pub mod Relay
pub mod Owner
mod Examples
