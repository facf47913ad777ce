-- ===== src/Storage/Store/Progress.antt =====
-- The store of crates/xfer-storage/src/piece.rs on a disk that takes all that is written to it.
use xfer_rust.Common.Bytes.{Bytes}
