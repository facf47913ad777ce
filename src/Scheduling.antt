-- ===== src/Scheduling.antt =====
-- The choice of pieces and of peers in crates/xfer-bt.
pub mod Playhead
pub mod Peers
mod Examples
