-- ===== src/Peer.antt =====
-- The peer wire protocol of crates/xfer-bt.
pub mod Message
pub mod Handshake
mod Examples
