-- ===== src/Query/Fold/Soundness.antt =====
-- The folding of an expression (planner/optimize.rs) keeps every value that it evaluates to.
use cypher_lite.Prelude.{◌≡◌, ap, subst, ◌∙◌, Bool, true, false, Option, none, some, if◌then◌else◌}
use cypher_lite.Query.Ast.{
  Expression, literal, integer, float, bool, binary_op, unary_op, BinaryOp, and, or, UnaryOp, not_,
  neg,
}
use cypher_lite.Query.Value.{Value, Outcome, ok, ◌>>=◌}
use cypher_lite.Query.Float.{Float64}
use cypher_lite.Query.Operators.{eval_literal, eval_unary_op}
use cypher_lite.Query.Eval.{Env, eval, binary_value, short_circuit, stops}
use cypher_lite.Query.Fold.{
  fold_literals, fold_boolean, fold_binary_op, fold_unary_op, fold_expr, early,
}
use cypher_lite.Query.Fold.Literals.{Improves, bind-ok, fold_literals-Improves}
use cypher_lite.Query.Fold.Connectives.{fold_boolean-Improves}

-- Every value of `m` is one of `n`.
abbrev Extends : Outcome Value → Outcome Value → Type 0
Extends m n = (v : Value) → m ≡ ok v → n ≡ ok v

bind-Extends :
    (m n : Outcome Value) (f g : Value → Outcome Value)
    → Extends m n
    → ((a : Value) → Extends (f a) (g a))
    → Extends (m >>= f) (n >>= g)
bind-Extends m n f g h k v e =
    let (a, first, rest) = bind-ok m f v e in ap (λ o. o >>= g) (h a first) ∙ k a v rest

stopped-Extends :
    (stop : Bool) (x : Value) (m n : Outcome Value) (f : Value → Outcome Value)
    → Extends m n
    → Extends (if stop then ok x else (m >>= f)) (if stop then ok x else (n >>= f))
stopped-Extends true x m n f h v e = e
stopped-Extends false x m n f h v e = bind-Extends m n f f h (λ a w k. k) v e

short_circuit-Extends :
    (b : Bool) (op : BinaryOp) (a : Value) (m n : Outcome Value)
    → Extends m n
    → Extends (short_circuit b op a m) (short_circuit b op a n)
short_circuit-Extends b op a m n h = stopped-Extends (stops b a) (Value.bool b) m n _ h

binary_value-Extends :
    (f64 : Float64) (op : BinaryOp) (l m r s : Outcome Value)
    → Extends l m
    → Extends r s
    → Extends (binary_value f64 op l r) (binary_value f64 op m s)
unfolding binary_value
binary_value-Extends f64 and l m r s h k =
    bind-Extends l m _ _ h (λ a. short_circuit-Extends false and a r s k)
binary_value-Extends f64 or l m r s h k =
    bind-Extends l m _ _ h (λ a. short_circuit-Extends true or a r s k)
binary_value-Extends f64 op l m r s h k =
    bind-Extends l m _ _ h (λ a. bind-Extends r s _ _ k (λ b v e. e))

early-Improves :
    (env : Env) (op : BinaryOp) (l r : Expression) (o : Option Expression)
    → fold_literals env.f64 op l r ≡ ok o
    → Improves env (binary_op op l r) (early o (fold_boolean op l r))
early-Improves env op l r none h = fold_boolean-Improves env op l r
early-Improves env op l r (some e) h = fold_literals-Improves env op l r e h

-- A folding that has ended.
result :
    (env : Env) (f e : Expression) (v : Value) → ok f ≡ ok e → eval env f ≡ ok v → eval env e ≡ ok v
result env f e v h k = let same : f ≡ e = cc in subst (λ x. eval env x ≡ ok v) same k

fold_binary_op-Improves :
    (env : Env) (op : BinaryOp) (l r e : Expression)
    → fold_binary_op env.f64 op l r ≡ ok e
    → Improves env (binary_op op l r) e
unfolding fold_binary_op
fold_binary_op-Improves env op l r e h v k =
    let (o, first, last) = bind-ok (fold_literals env.f64 op l r) _ e h in
    result env _ e v last (early-Improves env op l r o first v k)

fold_unary_op-Improves :
    (env : Env) (op : UnaryOp) (e : Expression) → Improves env (unary_op op e) (fold_unary_op op e)
unfolding fold_unary_op eval eval_literal eval_unary_op
fold_unary_op-Improves env not_ (literal (bool b)) v h = h
fold_unary_op-Improves env neg (literal (integer n)) v h = h
fold_unary_op-Improves env neg (literal (float f)) v h = h
fold_unary_op-Improves env op e v h = h

-- Folded sides.
sides :
    (env : Env) (op : BinaryOp) (l left r right : Expression)
    → Improves env l left
    → Improves env r right
    → Improves env (binary_op op l r) (binary_op op left right)
unfolding eval
sides env op l left r right h k =
    binary_value-Extends env.f64 op (eval env l) (eval env left) (eval env r) (eval env right) h k

under :
    (env : Env) (op : UnaryOp) (e inner : Expression)
    → Improves env e inner
    → Improves env (unary_op op e) (unary_op op inner)
unfolding eval
under env op e inner h = bind-Extends (eval env e) (eval env inner) _ _ h (λ a v k. k)

-- If folding an expression gives an expression, then wherever the first evaluates to a value, on whatever
-- row and engine, the second evaluates to the same value.
pub fold_expr-Improves :
    (env : Env) (e f : Expression)
    → fold_expr env.f64 e ≡ ok f
    → (v : Value) → eval env e ≡ ok v
    → eval env f ≡ ok v
unfolding fold_expr
fold_expr-Improves env (binary_op op l r) f h v k =
    let (left, first, rest) = bind-ok (fold_expr env.f64 l) _ f h in
    let (right, second, last) = bind-ok (fold_expr env.f64 r) _ f rest in
    fold_binary_op-Improves env op left right f last v (
      sides env op l left r right (fold_expr-Improves env l left first)
        (fold_expr-Improves env r right second) v k)
fold_expr-Improves env (unary_op op e) f h v k =
    let (inner, first, last) = bind-ok (fold_expr env.f64 e) _ f h in
    result env _ f v last (
      fold_unary_op-Improves env op inner v
        (under env op e inner (fold_expr-Improves env e inner first) v k))
fold_expr-Improves env e f h v k = result env _ f v h k
