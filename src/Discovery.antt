-- ===== src/Discovery.antt =====
-- The discovery of peers in crates/xfer-discovery.
pub mod Pex
pub mod UdpTracker
mod Examples
