-- ===== src/Query/Operators.antt =====
-- crates/cypherlite-query/src/executor/eval.rs: the operators on values.
use cypher_lite.Prelude.{
  ℕ, String, Bool, true, false, not, ◌&&◌, ◌||◌, [], ◌∷◌, ltb, ◌==◌, if◌then◌else◌,
}
use cypher_lite.Catalog.{Name, same_name}
use cypher_lite.Query.Ast.{
  Literal, integer, float, BinaryOp, add, sub, mul, div, mod_, eq, neq, lt, lte, gt, gte, and, or,
  UnaryOp, not_, neg,
}
use cypher_lite.Query.Ast
use cypher_lite.Query.Value.{
  Value, null, bool, int64, float64, string, node, edge, date_time, Outcome, ok, error, ◌>>=◌,
  is_null_value,
}
use cypher_lite.Query.Integer.{wrapping_add, wrapping_sub, wrapping_mul, quotient, remainder}
use cypher_lite.Query.Integer
use cypher_lite.Query.Float.{Float64, is_zero, epsilon, abs}
use cypher_lite.Query.Float

unfoldable pub eval_literal : Literal → Value
eval_literal (integer i) = int64 i
eval_literal (float f) = float64 f
eval_literal (Ast.string s) = string s
eval_literal (Ast.bool b) = bool b
eval_literal Ast.null = null

-- The comparison of two values of an ordered type, by whether they are equal and the first is smaller.
abbrev pub cmp_ord : BinaryOp → Bool → Bool → Bool
cmp_ord eq same less = same
cmp_ord neq same less = not same
cmp_ord lt same less = less
cmp_ord lte same less = less || same
cmp_ord gt same less = not (less || same)
cmp_ord gte same less = not less
cmp_ord _ same less = false

-- The order of byte strings.
abbrev pub less_bytes : Name → Name → Bool
less_bytes [] [] = false
less_bytes [] (b ∷ bs) = true
less_bytes (a ∷ as_) [] = false
less_bytes (a ∷ as_) (b ∷ bs) = ltb a b || (a == b && less_bytes as_ bs)

-- Numbers and dates.
abbrev cmp_i64 : BinaryOp → ℕ → ℕ → Bool
cmp_i64 op a b = cmp_ord op (a == b) (ltb (Integer.order a) (Integer.order b))

-- Entities and Booleans are equal or not.
abbrev equality : String → BinaryOp → Bool → Outcome Value
equality message eq same = ok (bool same)
equality message neq same = ok (bool (not same))
equality message _ same = error message []

abbrev same_bool : Bool → Bool → Bool
same_bool a b = if a then b else not b

abbrev int_result : Outcome ℕ → Outcome Value
int_result r = r >>= λ n. ok (int64 n)

unfoldable pub eval_int_arithmetic : ℕ → ℕ → BinaryOp → Outcome Value
eval_int_arithmetic a b add = ok (int64 (wrapping_add a b))
eval_int_arithmetic a b sub = ok (int64 (wrapping_sub a b))
eval_int_arithmetic a b mul = ok (int64 (wrapping_mul a b))
eval_int_arithmetic a b div =
    if b == 0 then error "division by zero" [] else int_result (quotient a b)
eval_int_arithmetic a b mod_ =
    if b == 0 then error "division by zero" [] else int_result (remainder a b)
eval_int_arithmetic a b _ = error "unexpected arithmetic op" []

module _ (f64 : Float64) where
  abbrev cmp_f64 : BinaryOp → ℕ → ℕ → Bool
  cmp_f64 eq a b = Float.lt (abs (f64.sub a b)) epsilon
  cmp_f64 neq a b = Float.le epsilon (abs (f64.sub a b))
  cmp_f64 lt a b = Float.lt a b
  cmp_f64 lte a b = Float.le a b
  cmp_f64 gt a b = Float.lt b a
  cmp_f64 gte a b = Float.le b a
  cmp_f64 _ a b = false

  -- Two values that are not null.
  abbrev cmp_present : BinaryOp → Value → Value → Outcome Value
  cmp_present op (int64 a) (int64 b) = ok (bool (cmp_i64 op a b))
  cmp_present op (float64 a) (float64 b) = ok (bool (cmp_f64 op a b))
  cmp_present op (int64 a) (float64 b) = ok (bool (cmp_f64 op (f64.of_i64 a) b))
  cmp_present op (float64 a) (int64 b) = ok (bool (cmp_f64 op a (f64.of_i64 b)))
  cmp_present op (string a) (string b) = ok (bool (cmp_ord op (same_name a b) (less_bytes a b)))
  cmp_present op (bool a) (bool b) = equality "cannot order boolean values" op (same_bool a b)
  cmp_present op (node a) (node b) = equality "cannot order node values" op (a == b)
  cmp_present op (edge a) (edge b) = equality "cannot order edge values" op (a == b)
  cmp_present op (date_time a) (date_time b) = ok (bool (cmp_i64 op a b))
  cmp_present op _ _ = error "type mismatch in comparison" []

  -- A comparison with null is false.
  unfoldable pub eval_cmp : Value → Value → BinaryOp → Outcome Value
  eval_cmp left right op =
      if is_null_value left || is_null_value right
      then ok (bool false)
      else cmp_present op left right

  unfoldable pub eval_float_arithmetic : ℕ → ℕ → BinaryOp → Outcome Value
  eval_float_arithmetic a b add = ok (float64 (f64.add a b))
  eval_float_arithmetic a b sub = ok (float64 (f64.sub a b))
  eval_float_arithmetic a b mul = ok (float64 (f64.mul a b))
  eval_float_arithmetic a b div =
      if is_zero b then error "division by zero" [] else ok (float64 (f64.div a b))
  eval_float_arithmetic a b mod_ =
      if is_zero b then error "division by zero" [] else ok (float64 (f64.rem a b))
  eval_float_arithmetic a b _ = error "unexpected arithmetic op" []

  unfoldable pub eval_arithmetic : Value → Value → BinaryOp → Outcome Value
  eval_arithmetic (int64 a) (int64 b) op = eval_int_arithmetic a b op
  eval_arithmetic (float64 a) (float64 b) op = eval_float_arithmetic a b op
  eval_arithmetic (int64 a) (float64 b) op = eval_float_arithmetic (f64.of_i64 a) b op
  eval_arithmetic (float64 a) (int64 b) op = eval_float_arithmetic a (f64.of_i64 b) op
  eval_arithmetic null _ op = ok null
  eval_arithmetic _ null op = ok null
  eval_arithmetic _ _ op = error "type mismatch in arithmetic operation" []

-- `And` and `Or` are what reaches it; anything else is an error.
unfoldable pub eval_boolean_op : BinaryOp → Value → Value → Outcome Value
eval_boolean_op and (bool a) (bool b) = ok (bool (a && b))
eval_boolean_op or (bool a) (bool b) = ok (bool (a || b))
eval_boolean_op and null (bool b) = if not b then ok (bool false) else ok null
eval_boolean_op or null (bool b) = if b then ok (bool true) else ok null
eval_boolean_op and (bool a) null = if not a then ok (bool false) else ok null
eval_boolean_op or (bool a) null = if a then ok (bool true) else ok null
eval_boolean_op op null null = ok null
eval_boolean_op _ (bool a) (bool b) = error "unexpected boolean op" []
eval_boolean_op _ null (bool b) = error "unexpected boolean op" []
eval_boolean_op _ (bool a) null = error "unexpected boolean op" []
eval_boolean_op _ _ _ = error "non-boolean operand in boolean operation" []

unfoldable pub eval_unary_op : UnaryOp → Value → Outcome Value
eval_unary_op not_ (bool b) = ok (bool (not b))
eval_unary_op not_ null = ok null
eval_unary_op not_ _ = error "NOT requires a boolean operand" []
eval_unary_op neg (int64 i) = ok (int64 (Integer.negate i))
eval_unary_op neg (float64 f) = ok (float64 (Float.negate f))
eval_unary_op neg null = ok null
eval_unary_op neg _ = error "unary minus requires a numeric operand" []

unfoldable pub eval_binary_op : Float64 → BinaryOp → Value → Value → Outcome Value
eval_binary_op f64 and left right = eval_boolean_op and left right
eval_binary_op f64 or left right = eval_boolean_op or left right
eval_binary_op f64 eq left right = eval_cmp f64 left right eq
eval_binary_op f64 neq left right = eval_cmp f64 left right neq
eval_binary_op f64 lt left right = eval_cmp f64 left right lt
eval_binary_op f64 lte left right = eval_cmp f64 left right lte
eval_binary_op f64 gt left right = eval_cmp f64 left right gt
eval_binary_op f64 gte left right = eval_cmp f64 left right gte
eval_binary_op f64 add left right = eval_arithmetic f64 left right add
eval_binary_op f64 sub left right = eval_arithmetic f64 left right sub
eval_binary_op f64 mul left right = eval_arithmetic f64 left right mul
eval_binary_op f64 div left right = eval_arithmetic f64 left right div
eval_binary_op f64 mod_ left right = eval_arithmetic f64 left right mod_
