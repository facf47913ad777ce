-- ===== src/Transport.antt =====
-- crates/xfer-transport: the uTP transport (BEP 29).
pub mod Packet
pub mod Connection
mod Examples
