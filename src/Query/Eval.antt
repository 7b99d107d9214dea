-- ===== src/Query/Eval.antt =====
-- crates/cypherlite-query/src/executor/eval.rs: the evaluation of an expression on a row.
use cypher_lite.Prelude.{
  ℕ, Bool, true, false, not, Option, none, some, List, [], ◌∷◌, ◌++◌, if◌then◌else◌,
}
use cypher_lite.Catalog.{Name, name_by_id}
use cypher_lite.Btree.NodeStore.{get_node}
use cypher_lite.Btree.EdgeStore.{get_edge}
use cypher_lite.Query.Ast.{
  Expression, Expressions, literal, variable, property, parameter, binary_op, unary_op,
  function_call, is_null, count_star, list_literal, temporal_ref, BinaryOp, and, or, eq, neq, lt,
  lte, gt, gte, add, sub, mul, div, mod_,
}
use cypher_lite.Query.Ast
use cypher_lite.Query.Value.{
  Value, Values, nil, cons, null, bool, int64, string, list, node, edge, date_time, Outcome, ok,
  error, ◌>>=◌, is_null_value,
}
use cypher_lite.Query.Float.{Float64}
use cypher_lite.Query.Operators.{eval_literal, eval_binary_op, eval_boolean_op, eval_unary_op}
use cypher_lite.Query.Datetime.{parse_trimmed}
use cypher_lite.Query.Access.{Engine, eval_property_access, eval_temporal_property_access}
use cypher_lite.Query.Functions.{
  aggregate, id_of, type_of, labels_of, datetime, now, scalar, function_of, temporal_prefix,
  query_start,
}

-- What an evaluation reads: the row, the parameters, the engine, the lookup of scalar functions, which
-- plugins fill; and of the machine and the standard library the float arithmetic, the clock, and the
-- Unicode tables of `to_lowercase` and `trim`.
pub record Env : Type 0 where
  pub row : Name → Option Value
  pub params : Name → Option Value
  pub engine : Engine
  pub call_scalar : Name → Values → Option (Outcome Value)
  pub f64 : Float64
  pub clock : ℕ
  pub to_lowercase : Name → Name
  pub trim : Name → Name

abbrev or_null : Option Value → Value
or_null none = null
or_null (some v) = v

abbrev as_list : Option Value → Option Values
as_list (some (list vs)) = some vs
as_list _ = none

-- The properties of a version that a temporal query has put in the row for a variable.
abbrev temporal_props : Env → Expression → Option Values
temporal_props env (variable name) = as_list (env.row (temporal_prefix ++ name))
temporal_props env _ = none

-- A left operand that ends `AND` (at false) and `OR` (at true).
abbrev pub stops : Bool → Value → Bool
stops b (bool a) = if b then a else not a
stops b _ = false

abbrev pub short_circuit : Bool → BinaryOp → Value → Outcome Value → Outcome Value
short_circuit b op left right =
    if stops b left then ok (bool b) else (right >>= λ r. eval_boolean_op op left r)

-- A binary operation on the values of its sides; `AND` and `OR` need the right side only at times.
unfoldable pub binary_value : Float64 → BinaryOp → Outcome Value → Outcome Value → Outcome Value
binary_value f64 and left right = left >>= λ l. short_circuit false and l right
binary_value f64 or left right = left >>= λ l. short_circuit true or l right
binary_value f64 op left right = left >>= λ l. right >>= λ r. eval_binary_op f64 op l r

abbrev id_value : Value → Outcome Value
id_value (node n) = ok (int64 n)
id_value (edge e) = ok (int64 e)
id_value _ = error "id() requires a node or edge argument" []

abbrev type_value : Engine → Value → Outcome Value
type_value engine (edge e) = elim (get_edge engine.edges e) [
  | none ↦ ok null
  | some r ↦ elim (name_by_id engine.catalog.rel_types r.rel_type_id) [
    | none ↦ ok (string [])
    | some n ↦ ok (string n)
  ]
]
type_value engine _ = error "type() requires an edge argument" []

abbrev label_names : Engine → List ℕ → Values
label_names engine [] = nil
label_names engine (l ∷ ls) = elim (name_by_id engine.catalog.labels l) [
  | none ↦ label_names engine ls
  | some n ↦ cons (string n) (label_names engine ls)
]

abbrev labels_value : Engine → Value → Outcome Value
labels_value engine (node n) = elim (get_node engine.nodes n) [
  | none ↦ ok null
  | some r ↦ ok (list (label_names engine r.labels))
]
labels_value engine _ = error "labels() requires a node argument" []

abbrev datetime_value : Env → Value → Outcome Value
datetime_value env (string s) = parse_trimmed (env.trim s) >>= λ ms. ok (date_time ms)
datetime_value env _ = error "datetime() requires a string argument" []

abbrev now_value : Env → Option Value → Outcome Value
now_value env (some (int64 ms)) = ok (date_time ms)
now_value env _ = ok (date_time env.clock)

abbrev scalar_value : Name → Option (Outcome Value) → Outcome Value
scalar_value name none = error "unknown function" name
scalar_value name (some result) = result

-- The one argument of a function that takes one.
abbrev with_argument : Name → Option (Outcome Value) → (Value → Outcome Value) → Outcome Value
with_argument name none f = error "requires exactly one argument" name
with_argument name (some argument) f = argument >>= f

-- A call, from its only argument, if there is one, and the values of all of them.
unfoldable pub call_value :
    Env → Name → Bool → Option (Outcome Value) → Outcome Values → Outcome Value
call_value env name no_arguments argument arguments =
    let lower = env.to_lowercase name in
    elim (function_of lower) [
      | aggregate ↦ ok null
      | id_of ↦ with_argument lower argument id_value
      | type_of ↦ with_argument lower argument (type_value env.engine)
      | labels_of ↦ with_argument lower argument (labels_value env.engine)
      | datetime ↦ with_argument lower argument (datetime_value env)
      | now ↦
          if no_arguments
          then now_value env (env.params query_start)
          else error "now() takes no arguments" []
      | scalar ↦ arguments >>= λ vs. scalar_value name (env.call_scalar lower vs)
    ]

abbrev is_empty : Expressions → Bool
is_empty Ast.nil = true
is_empty (Ast.cons e es) = false

unfoldable mutual
  pub eval : Env → Expression → Outcome Value
  eval env (literal l) = ok (eval_literal l)
  eval env (variable name) = ok (or_null (env.row name))
  eval env (property e name) =
      let inner = eval env e in
      elim (temporal_props env e) [
        | none ↦ inner >>= λ v. eval_property_access env.engine v name
        | some props ↦ eval_temporal_property_access env.engine props name
      ]
  eval env (parameter name) = ok (or_null (env.params name))
  eval env (binary_op op l r) = binary_value env.f64 op (eval env l) (eval env r)
  eval env (unary_op op e) = eval env e >>= λ v. eval_unary_op op v
  eval env (is_null e negated) =
      eval env e >>= λ v. ok (bool (if negated then not (is_null_value v) else is_null_value v))
  eval env (list_literal es) = eval_all env es >>= λ vs. ok (list vs)
  eval env count_star = ok null
  eval env (function_call name distinct args) =
      call_value env name (is_empty args) (eval_single env args) (eval_all env args)
  eval env (temporal_ref n t) = eval env n >>= λ v. eval env t >>= λ w. eval env n

  pub eval_all : Env → Expressions → Outcome Values
  eval_all env Ast.nil = ok nil
  eval_all env (Ast.cons e es) = eval env e >>= λ v. eval_all env es >>= λ vs. ok (cons v vs)

  pub eval_single : Env → Expressions → Option (Outcome Value)
  eval_single env Ast.nil = none
  eval_single env (Ast.cons e Ast.nil) = some (eval env e)
  eval_single env (Ast.cons e (Ast.cons f es)) = none
