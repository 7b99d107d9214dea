-- ===== src/Wal.antt =====
-- crates/cypherlite-storage/src/wal: the write-ahead log.
pub mod Format
pub mod Writer
pub mod Reader
pub mod Recovery
pub mod Checkpoint
