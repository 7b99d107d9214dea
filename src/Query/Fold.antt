-- ===== src/Query/Fold.antt =====
-- crates/cypherlite-query/src/planner/optimize.rs: the folding of constant expressions. A division that
-- overflows panics here already.
pub mod Literals
pub mod Connectives
pub mod Soundness
use cypher_lite.Prelude.{ℕ, Bool, true, false, not, Option, none, some, ◌==◌, if◌then◌else◌}
use cypher_lite.Query.Ast.{
  Literal, integer, float, bool, Expression, literal, binary_op, unary_op, BinaryOp, add, sub, mul,
  div, mod_, and, or, UnaryOp, not_, neg,
}
use cypher_lite.Query.Value.{Outcome, ok, ◌>>=◌}
use cypher_lite.Query.Integer.{wrapping_add, wrapping_sub, wrapping_mul, quotient, remainder}
use cypher_lite.Query.Integer
use cypher_lite.Query.Float.{Float64, is_zero}
use cypher_lite.Query.Float

abbrev pub as_integer : Expression → Option ℕ
as_integer (literal (integer n)) = some n
as_integer _ = none

abbrev pub as_float : Expression → Option ℕ
as_float (literal (float f)) = some f
as_float _ = none

-- `== Expression::Literal(Literal::Bool(b))`
abbrev pub is_bool : Bool → Expression → Bool
is_bool b (literal (bool a)) = if b then a else not a
is_bool b _ = false

abbrev some_integer : Outcome ℕ → Outcome (Option Expression)
some_integer r = r >>= λ n. ok (some (literal (integer n)))

-- What folding two integers returns early, if anything.
unfoldable pub fold_integers : BinaryOp → ℕ → ℕ → Outcome (Option Expression)
fold_integers add a b = ok (some (literal (integer (wrapping_add a b))))
fold_integers sub a b = ok (some (literal (integer (wrapping_sub a b))))
fold_integers mul a b = ok (some (literal (integer (wrapping_mul a b))))
fold_integers div a b = if b == 0 then ok none else some_integer (quotient a b)
fold_integers mod_ a b = if b == 0 then ok none else some_integer (remainder a b)
fold_integers _ a b = ok none

unfoldable pub fold_floats : Float64 → BinaryOp → ℕ → ℕ → Option Expression
fold_floats f64 add a b = some (literal (float (f64.add a b)))
fold_floats f64 sub a b = some (literal (float (f64.sub a b)))
fold_floats f64 mul a b = some (literal (float (f64.mul a b)))
fold_floats f64 div a b = if is_zero b then none else some (literal (float (f64.div a b)))
fold_floats f64 _ a b = none

-- The `match` on two literals.
unfoldable pub fold_literals :
    Float64 → BinaryOp → Expression → Expression → Outcome (Option Expression)
fold_literals f64 op (literal (integer a)) (literal (integer b)) = fold_integers op a b
fold_literals f64 op (literal (float a)) (literal (float b)) = ok (fold_floats f64 op a b)
fold_literals f64 op _ _ = ok none

-- `AND` at the constant false, and `OR` at the constant true.
unfoldable pub fold_connective : Bool → BinaryOp → Expression → Expression → Expression
fold_connective b op left right =
    if is_bool b left
    then literal (bool b)
    else if is_bool b right
    then literal (bool b)
    else if is_bool (not b) left
    then right
    else if is_bool (not b) right
    then left
    else binary_op op left right

unfoldable pub fold_boolean : BinaryOp → Expression → Expression → Expression
fold_boolean and left right = fold_connective false and left right
fold_boolean or left right = fold_connective true or left right
fold_boolean op left right = binary_op op left right

abbrev pub early : Option Expression → Expression → Expression
early none e = e
early (some folded) e = folded

unfoldable pub fold_binary_op : Float64 → BinaryOp → Expression → Expression → Outcome Expression
fold_binary_op f64 op left right =
    fold_literals f64 op left right >>= λ o. ok (early o (fold_boolean op left right))

unfoldable pub fold_unary_op : UnaryOp → Expression → Expression
fold_unary_op not_ (literal (bool b)) = literal (bool (not b))
fold_unary_op neg (literal (integer n)) = literal (integer (Integer.negate n))
fold_unary_op neg (literal (float f)) = literal (float (Float.negate f))
fold_unary_op op inner = unary_op op inner

unfoldable pub fold_expr : Float64 → Expression → Outcome Expression
fold_expr f64 (binary_op op l r) =
    fold_expr f64 l >>= λ left. fold_expr f64 r >>= λ right. fold_binary_op f64 op left right
fold_expr f64 (unary_op op e) = fold_expr f64 e >>= λ inner. ok (fold_unary_op op inner)
fold_expr f64 e = ok e
