-- ===== src/Query.antt =====
-- crates/cypherlite-query: expressions, their evaluation and their folding.
pub mod Ast
pub mod Value
pub mod Integer
pub mod Float
pub mod Operators
pub mod Datetime
pub mod Access
pub mod Functions
pub mod Eval
pub mod Fold
pub mod Sorting
