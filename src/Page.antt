-- ===== src/Page.antt =====
-- crates/cypherlite-storage/src/page: the pages of the database file.
pub mod Header
pub mod Manager
