-- ===== src/Record.antt =====
-- crates/cypherlite-storage/src/page/record_serialization.rs and btree/property_store.rs: records as
-- bytes, and the data pages that hold them.
pub mod Reader
pub mod Reads
pub mod Property
pub mod Fields
pub mod Nodes
pub mod Groups
pub mod Versions
pub mod DataPage
