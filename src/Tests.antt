-- ===== src/Tests.antt =====
-- Runs of the model at concrete inputs, and the theorems applied at them.
mod Wal
mod Recovery
mod Page
mod Transaction
mod Graph
mod Catalog
mod Records
mod Query
mod Pool
mod Index
