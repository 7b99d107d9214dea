-- ===== src/Query/Ast.antt =====
-- crates/cypherlite-query/src/parser/ast.rs: expressions. A text is its bytes, an integer and a float are
-- their 64-bit patterns, and a vector of expressions is `Expressions`.
use cypher_lite.Prelude.{ℕ, Bool}
use cypher_lite.Catalog.{Name}

pub data Literal : Type 0 where
  integer : ℕ → Literal
  float : ℕ → Literal
  string : Name → Literal
  bool : Bool → Literal
  null : Literal

pub data BinaryOp : Type 0 where
  add sub mul div mod_ eq neq lt lte gt gte and or : BinaryOp

pub data UnaryOp : Type 0 where
  not_ neg : UnaryOp

mutual
  pub data Expression : Type 0 where
    literal : Literal → Expression
    variable : Name → Expression
    property : Expression → Name → Expression
    parameter : Name → Expression
    binary_op : BinaryOp → Expression → Expression → Expression
    unary_op : UnaryOp → Expression → Expression
    -- the name, whether DISTINCT was given, and the arguments
    function_call : Name → Bool → Expressions → Expression
    -- whether it is IS NOT NULL
    is_null : Expression → Bool → Expression
    count_star : Expression
    list_literal : Expressions → Expression
    -- the node and the timestamp
    temporal_ref : Expression → Expression → Expression

  pub data Expressions : Type 0 where
    nil : Expressions
    cons : Expression → Expressions → Expressions
