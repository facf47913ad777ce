-- ===== src/Bencode.antt =====
-- The bencode format of crates/xfer-bencode/src/lib.rs.
pub mod Decimal
pub mod Value
pub mod Parser
mod Examples
