-- ===== src/Storage.antt =====
-- The piece storage of crates/xfer-storage.
pub mod PieceMap
pub mod Layout
pub mod Store
mod Examples
mod StoreExamples
