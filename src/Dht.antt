-- ===== src/Dht.antt =====
-- The distributed hash table of crates/xfer-dht.
pub mod Table
mod Examples
