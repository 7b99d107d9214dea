-- ===== src/Tests/Query.antt =====
-- Expressions at concrete inputs.
use Prim.Native.Nat.{Ordering}
use cypher_lite.Prelude.{ℕ, ◌-◌, ◌≡◌, refl, true, false, none, some, [], ◌∷◌}
use cypher_lite.Catalog.{new_namespace}
use cypher_lite.Btree.NodeStore.{new_node_store}
use cypher_lite.Btree.EdgeStore.{new_edge_store}
use cypher_lite.Subgraph.{new_subgraph_store}
use cypher_lite.HyperEdge.{new_hyper_edge_store}
use cypher_lite.Version.{new_version_store}
use cypher_lite.Query.Ast.{
  Expression, literal, integer, bool, variable, binary_op, unary_op, add, sub, mul, div, and, neg,
}
use cypher_lite.Query.Value.{Value, int64, ok, error, panic}
use cypher_lite.Query.Integer.{lowest, negate, quotient, remainder}
use cypher_lite.Query.Float.{Float64}
use cypher_lite.Query.Access.{Engine}
use cypher_lite.Query.Operators.{
  eval_literal, eval_binary_op, eval_boolean_op, eval_arithmetic, eval_int_arithmetic,
}
use cypher_lite.Query.Datetime.{parse_trimmed, slice}
use cypher_lite.Query.Eval.{Env, eval, binary_value}
use cypher_lite.Query.Fold.{
  fold_expr, fold_binary_op, fold_literals, fold_integers, fold_boolean, fold_connective,
  fold_unary_op,
}
use cypher_lite.Query.Sorting.{compare_values}
use cypher_lite.Query.Fold.Soundness.{fold_expr-Improves}

-- Floats are not computed with here.
abbrev no_floats : Float64
no_floats = record {
  add = λ a b. a;
  sub = λ a b. a;
  mul = λ a b. a;
  div = λ a b. a;
  rem = λ a b. a;
  of_i64 = λ a. a;
}

abbrev empty_engine : Engine
empty_engine = record {
  nodes = new_node_store 1;
  edges = new_edge_store 1;
  subgraphs = new_subgraph_store 1;
  hyperedges = new_hyper_edge_store 1;
  versions = new_version_store;
  catalog = record {
    labels = new_namespace;
    prop_keys = new_namespace;
    rel_types = new_namespace;
    indexes = [];
  };
}

-- A row in which every variable is 5.
abbrev fives : Env
fives = record {
  row = λ name. some (int64 5);
  params = λ name. none;
  engine = empty_engine;
  call_scalar = λ name arguments. none;
  f64 = no_floats;
  clock = 0;
  to_lowercase = λ name. name;
  trim = λ name. name;
}

abbrev number : ℕ → Expression
number n = literal (integer n)

-- (1 + 2) * x
abbrev product : Expression
product = binary_op mul (binary_op add (number 1) (number 2)) (variable [])

abbrev folded_product : Expression
folded_product = binary_op mul (number 3) (variable [])

product_folds : fold_expr no_floats product ≡ ok folded_product
unfolding fold_expr fold_binary_op fold_literals fold_integers fold_boolean
product_folds = refl

product_value : eval fives product ≡ ok (int64 15)
unfolding eval binary_value eval_literal eval_binary_op eval_arithmetic eval_int_arithmetic
product_value = refl

fold_expr-Improves_example : eval fives folded_product ≡ ok (int64 15)
fold_expr-Improves_example =
    fold_expr-Improves fives product folded_product product_folds (int64 15) product_value

-- `true AND 5` is an error, and folds to 5.
abbrev ill_typed : Expression
ill_typed = binary_op and (literal (bool true)) (number 5)

folding_hides_errors :
    (fold_expr no_floats ill_typed ≡ ok (number 5))
    × (eval fives ill_typed ≡ error "non-boolean operand in boolean operation" [])
unfolding fold_expr fold_binary_op fold_literals fold_boolean fold_connective eval binary_value
    eval_literal eval_boolean_op
folding_hides_errors = (refl, refl)

-- `false AND (-9223372036854775807 - 1) / -1` is false, and its folding panics.
abbrev overflowing : Expression
overflowing = binary_op and (literal (bool false)) (
    binary_op div (binary_op sub (unary_op neg (number (lowest - 1))) (number 1))
      (unary_op neg (number 1)))

folding_panics :
    (fold_expr no_floats overflowing ≡ panic) × (eval fives overflowing ≡ ok (Value.bool false))
unfolding fold_expr fold_binary_op fold_literals fold_integers fold_boolean fold_connective
    fold_unary_op quotient eval binary_value eval_literal eval_boolean_op
folding_panics = (refl, refl)

-- Division rounds towards zero.
signed_division : (quotient (negate 7) 2 ≡ ok (negate 3)) × (remainder (negate 7) 2 ≡ ok (negate 1))
unfolding quotient remainder
signed_division = (refl, refl)

-- "2000-03-01T12:30:00+02:00"
leap_date :
    parse_trimmed (
      50 ∷ 48 ∷ 48 ∷ 48 ∷ 45 ∷ 48 ∷ 51 ∷ 45 ∷ 48 ∷ 49 ∷ 84 ∷ 49 ∷ 50 ∷ 58 ∷ 51 ∷ 48 ∷ 58 ∷ 48 ∷ 48
      ∷ 43 ∷ 48 ∷ 50 ∷ 58 ∷ 48 ∷ 48 ∷ [])
    ≡ ok 951906600000
unfolding parse_trimmed slice quotient
leap_date = refl

-- 2 and "a" count as equal, "a" and 1 too, and 2 comes after 1.
sorting_intransitive :
    (compare_values no_floats (int64 2) (Value.string (97 ∷ [])) ≡ Ordering.eq)
    × (compare_values no_floats (Value.string (97 ∷ [])) (int64 1) ≡ Ordering.eq)
    × (compare_values no_floats (int64 2) (int64 1) ≡ Ordering.gt)
unfolding compare_values
sorting_intransitive = (refl, refl, refl)
