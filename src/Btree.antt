-- ===== src/Btree.antt =====
-- crates/cypherlite-storage/src/btree: the stores of nodes and relationships.
pub mod Tree
pub mod NodeStore
pub mod EdgeStore
pub mod Creation
pub mod Deletion
pub mod DeletionOfAll
