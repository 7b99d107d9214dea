-- ===== src/Lib.antt =====
-- CypherLite, an embedded graph database: its storage engine, crates/cypherlite-storage, with the
-- record types of crates/cypherlite-core, and the expressions of its query language,
-- crates/cypherlite-query, compiled with every feature.
--
-- How the parts interact. A write changes records in memory and pages through the log: the writer
-- (crates/cypherlite-storage/src/wal/writer.rs) buffers page images as frames and a commit appends
-- them to the log file and then counts them in its header. Opening the database replays the counted
-- frames into the database file (wal/recovery.rs), and a checkpoint does so while it runs
-- (wal/checkpoint.rs). A transaction (transaction/mvcc.rs) takes the number of the last committed
-- frame as its snapshot, and a reader (wal/reader.rs) at a snapshot other than 0 shows no later frame.
-- The stores of nodes, edges, subgraphs, hyperedges and versions are ordered maps from ids to records;
-- the edge store keeps the heads of the adjacency chains in the node store. The page manager
-- (page/page_manager.rs) reads and writes whole pages of the database file and allocates them by a
-- bit map on page 1.
--
-- Files, and what each models (paths below crates/cypherlite-storage/src unless said otherwise):
--   Prelude, OrdMap, File, Endian: lists and tests over numbers, `BTreeMap` and `HashMap` as lists of
--     entries in key order, `std::fs::File` as bytes read and written at an offset, `to_le_bytes`.
--   Core: crates/cypherlite-core/src/types.rs, error.rs, config.rs. `Result` has a third case, `panic`.
--   Wal.Format: wal/mod.rs; Wal.Writer: wal/writer.rs; Wal.Reader: wal/reader.rs; Wal.Recovery:
--     wal/recovery.rs; Wal.Checkpoint: wal/checkpoint.rs. A method on `&mut self` is a function that
--     returns the new record beside its result, and what a method writes to a file is a list of file
--     operations (`FileOp`), so that a crash is a cut of that list (`crash_file`).
--   Page.Header: page/mod.rs; Page.Manager: page/page_manager.rs.
--   Pool: page/buffer_pool.rs. Lru: the list of pages in order of use in its arena (Segments, Links,
--     Recency and the modules up to Using say which pages it lists); Buffer: the frames and the pages'
--     indices (Dropping, Eviction, Keeping, Reaching); History: any sequence of the operations.
--   Transaction: transaction/mvcc.rs. The mutex is a Boolean that every transaction with a guard holds,
--     and whatever the threads do is a sequence of steps (`Step`).
--   Btree.Tree, Btree.NodeStore, Btree.EdgeStore: btree/mod.rs, node_store.rs, edge_store.rs; the other
--     modules of Btree prove what creating and deleting edges does.
--   MultiIndex: the code that subgraph/membership.rs and hyperedge/reverse_index.rs share; Subgraph:
--     subgraph/mod.rs; HyperEdge: hyperedge/mod.rs.
--   Version: version/mod.rs, with the pair that is its key as one number.
--   Catalog: catalog/mod.rs, without its serialisation.
--   Index: index/mod.rs and edge_index.rs, the managers of the indexes; Index.Keys: the order of property
--     values; Index.Entries: the entries of an index, in the order of their keys; Index.Writes: the
--     writes through the references that a manager returns, as functions on the index.
--   Record: page/record_serialization.rs (Fields, Nodes, Groups, Versions: the codecs; DataPage: pages of
--     records) and btree/property_store.rs (Property). A deserialiser is a reader of a buffer at an offset
--     (Reader), and what it makes of given bytes is composed from its steps (Reads).
--   Query: of crates/cypherlite-query/src. Ast: parser/ast.rs, the expressions; Value, Operators, Access,
--     Datetime, Functions, Eval, Sorting: executor/eval.rs and the values of executor/mod.rs; Fold: the
--     folding of constants in planner/optimize.rs; Integer and Float: `i64` and `f64` on bit patterns.
--   Tests: runs at concrete inputs.
--
-- Conventions. Ids and integers are native numbers; where the source adds at a fixed width, the model
-- reduces modulo 2 ^ 32 or 2 ^ 64, as a release build does, and theorems that need it say that there
-- is room. An i64 and an f64 are their 64-bit patterns. A loop that the source bounds by a count
-- recurs on the rounds left; only the iteration of the list of pages has fuel, the number of nodes of
-- its arena, which is enough because no node is met twice.
--
-- Not modelled: failures of the disk other than a read past the end of a file; the order in which an
-- operating system writes operations between two calls of `sync_all` (a crash keeps a prefix of the
-- operations, the last frame possibly in part; the 32 bytes of the header are written whole or not);
-- the engine that joins the stores; of the query language, all but expressions; the bindings and the
-- plugins. Code of others is a parameter: `bincode`, which encodes arrays (`Bincode`), and for
-- expressions the arithmetic of floats, the clock, the Unicode tables of `to_lowercase` and `trim`, and
-- the scalar functions of plugins (`Env`).
pub mod Prelude
pub mod OrdMap
pub mod Core
pub mod File
pub mod Endian
pub mod Wal
pub mod Page
pub mod Transaction
pub mod Btree
pub mod MultiIndex
pub mod Subgraph
pub mod HyperEdge
pub mod Version
pub mod Catalog
pub mod Index
pub mod Record
pub mod Query
pub mod Pool
mod Tests
