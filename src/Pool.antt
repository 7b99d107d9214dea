-- ===== src/Pool.antt =====
-- crates/cypherlite-storage/src/page/buffer_pool.rs: the pages held in memory.
pub mod Lru
pub mod Segments
pub mod Fields
pub mod Links
pub mod Recency
pub mod Places
pub mod Removal
pub mod Order
pub mod Insertion
pub mod Pushing
pub mod Using
pub mod Buffer
pub mod Frames
pub mod Dropping
pub mod Eviction
pub mod Keeping
pub mod Reaching
pub mod History
