-- ===== src/Query/Fold/Literals.antt =====
-- Folding an operation on two literals (planner/optimize.rs) gives what its evaluation gives.
use cypher_lite.Prelude.{
  ℕ, ◌≡◌, refl, subst, Bool, true, false, Option, none, some, [], ◌==◌, if◌then◌else◌,
}
use cypher_lite.Query.Ast.{
  Expression, literal, integer, float, binary_op, BinaryOp, add, sub, mul, div, mod_,
}
use cypher_lite.Query.Value.{Value, int64, float64, Outcome, ok, error, panic, ◌>>=◌}
use cypher_lite.Query.Integer.{quotient, remainder}
use cypher_lite.Query.Float.{is_zero}
use cypher_lite.Query.Operators.{
  eval_literal, eval_binary_op, eval_arithmetic, eval_int_arithmetic, eval_float_arithmetic,
}
use cypher_lite.Query.Eval.{Env, eval, binary_value}
use cypher_lite.Query.Fold.{fold_literals, fold_integers, fold_floats}

-- Wherever the first evaluates, the second evaluates to the same.
abbrev pub Improves : Env → Expression → Expression → Type 0
Improves env e f = (v : Value) → eval env e ≡ ok v → eval env f ≡ ok v

-- A step that succeeds comes after one that does.
pub bind-ok :
    {T U : Type 0} (m : Outcome T) (f : T → Outcome U) (u : U)
    → (m >>= f) ≡ ok u
    → (t : T) × (m ≡ ok t) × (f t ≡ ok u)
bind-ok (ok t) f u h = (t, refl, h)
bind-ok (error s d) f u h = absurd (let clash = h in cc)
bind-ok panic f u h = absurd (let clash = h in cc)

abbrev found : Option Expression → Outcome (Option Expression)
found o = ok o

-- The expression that a folding returns early.
returned :
    (env : Env) (f e : Expression) (v : Value)
    → found (some f) ≡ found (some e)
    → eval env f ≡ ok v
    → eval env e ≡ ok v
returned env f e v h k = let same : f ≡ e = cc in subst (λ x. eval env x ≡ ok v) same k

-- A division behind the test for zero, folded and evaluated.
folded_division :
    (env : Env) (zero : Bool) (q : Outcome ℕ) (e : Expression) (v : Value)
    → (if zero then ok none else (q >>= λ n. ok (some (literal (integer n))))) ≡ ok (some e)
    → (if zero then error "division by zero" [] else (q >>= λ n. ok (int64 n))) ≡ ok v
    → eval env e ≡ ok v
unfolding eval eval_literal
folded_division env true q e v h k = absurd (let clash = h in cc)
folded_division env false (ok n) e v h k = returned env (literal (integer n)) e v h k
folded_division env false (error s d) e v h k = absurd (let clash = h in cc)
folded_division env false panic e v h k = absurd (let clash = h in cc)

-- Two integers.
folded_integers :
    (env : Env) (op : BinaryOp) (a b : ℕ) (e : Expression)
    → fold_integers op a b ≡ ok (some e)
    → Improves env (binary_op op (literal (integer a)) (literal (integer b))) e
unfolding fold_integers eval eval_literal binary_value eval_binary_op eval_arithmetic
    eval_int_arithmetic
folded_integers env add a b e h v k = returned env _ e v h k
folded_integers env sub a b e h v k = returned env _ e v h k
folded_integers env mul a b e h v k = returned env _ e v h k
folded_integers env div a b e h v k = folded_division env (b == 0) (quotient a b) e v h k
folded_integers env mod_ a b e h v k = folded_division env (b == 0) (remainder a b) e v h k
folded_integers env _ a b e h v k = absurd (let clash = h in cc)

folded_float_division :
    (env : Env) (zero : Bool) (q : ℕ) (e : Expression) (v : Value)
    → found (if zero then none else some (literal (float q))) ≡ found (some e)
    → (if zero then error "division by zero" [] else ok (float64 q)) ≡ ok v
    → eval env e ≡ ok v
unfolding eval eval_literal
folded_float_division env true q e v h k = absurd (let clash = h in cc)
folded_float_division env false q e v h k = returned env _ e v h k

-- Two floats.
folded_floats :
    (env : Env) (op : BinaryOp) (a b : ℕ) (e : Expression)
    → found (fold_floats env.f64 op a b) ≡ found (some e)
    → Improves env (binary_op op (literal (float a)) (literal (float b))) e
unfolding fold_floats eval eval_literal binary_value eval_binary_op eval_arithmetic
    eval_float_arithmetic
folded_floats env add a b e h v k = returned env _ e v h k
folded_floats env sub a b e h v k = returned env _ e v h k
folded_floats env mul a b e h v k = returned env _ e v h k
folded_floats env div a b e h v k = folded_float_division env (is_zero b) (env.f64.div a b) e v h k
folded_floats env _ a b e h v k = absurd (let clash = h in cc)

-- What a `match` on two literals returns improves the operation.
pub fold_literals-Improves :
    (env : Env) (op : BinaryOp) (l r e : Expression)
    → fold_literals env.f64 op l r ≡ ok (some e)
    → Improves env (binary_op op l r) e
unfolding fold_literals
fold_literals-Improves env op (literal (integer a)) (literal (integer b)) e h =
    folded_integers env op a b e h
fold_literals-Improves env op (literal (float a)) (literal (float b)) e h =
    folded_floats env op a b e h
fold_literals-Improves env op _ _ e h = absurd (let clash = h in cc)
