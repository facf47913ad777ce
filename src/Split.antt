-- ===== src/Split.antt =====
-- The download of one file over several connections, crates/xfer-http/src/split.rs.
pub mod Writer
pub mod Resume
mod Examples
