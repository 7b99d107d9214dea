-- ===== src/Query/Fold/Connectives.antt =====
-- Folding `AND` and `OR` at a constant side (planner/optimize.rs) keeps every value.
use cypher_lite.Prelude.{◌≡◌, refl, sym, ap, ◌∙◌, Bool, true, false, not, Bool-cases, inl, inr}
use cypher_lite.Query.Ast.{Expression, literal, bool, binary_op, BinaryOp, and, or}
use cypher_lite.Query.Value.{Value, null, Outcome, ok, error, panic, ◌>>=◌}
use cypher_lite.Query.Operators.{eval_literal, eval_boolean_op}
use cypher_lite.Query.Eval.{Env, eval, binary_value, short_circuit}
use cypher_lite.Query.Fold.{is_bool, fold_connective, fold_boolean}
use cypher_lite.Query.Fold.Literals.{Improves, bind-ok}

-- The connective that a value of one side decides.
abbrev connective : Bool → BinaryOp
connective false = and
connective true = or

is_bool-literal : (b : Bool) (e : Expression) → is_bool b e ≡ true → e ≡ literal (bool b)
is_bool-literal true (literal (bool true)) h = refl
is_bool-literal true (literal (bool false)) h = absurd (let clash = h in cc)
is_bool-literal false (literal (bool true)) h = absurd (let clash = h in cc)
is_bool-literal false (literal (bool false)) h = refl
is_bool-literal b _ h = absurd (let clash = h in cc)

-- The deciding value on the right.
decided :
    (b : Bool) (a v : Value)
    → short_circuit b (connective b) a (ok (Value.bool b)) ≡ ok v
    → ok (Value.bool b) ≡ ok v
unfolding eval_boolean_op
decided false (Value.bool true) v h = h
decided false (Value.bool false) v h = h
decided false null v h = h
decided false _ v h = absurd (let clash = h in cc)
decided true (Value.bool true) v h = h
decided true (Value.bool false) v h = h
decided true null v h = h
decided true _ v h = absurd (let clash = h in cc)

-- The other value on the right.
kept_left :
    (b : Bool) (a v : Value)
    → short_circuit b (connective b) a (ok (Value.bool (not b))) ≡ ok v
    → ok a ≡ ok v
unfolding eval_boolean_op
kept_left false (Value.bool true) v h = h
kept_left false (Value.bool false) v h = h
kept_left false null v h = h
kept_left false _ v h = absurd (let clash = h in cc)
kept_left true (Value.bool true) v h = h
kept_left true (Value.bool false) v h = h
kept_left true null v h = h
kept_left true _ v h = absurd (let clash = h in cc)

-- The other value on the left.
kept_right :
    (b : Bool) (a v : Value)
    → short_circuit b (connective b) (Value.bool (not b)) (ok a) ≡ ok v
    → ok a ≡ ok v
unfolding eval_boolean_op
kept_right false (Value.bool true) v h = h
kept_right false (Value.bool false) v h = h
kept_right false null v h = h
kept_right false _ v h = absurd (let clash = h in cc)
kept_right true (Value.bool true) v h = h
kept_right true (Value.bool false) v h = h
kept_right true null v h = h
kept_right true _ v h = absurd (let clash = h in cc)

deciding :
    (b : Bool) (r : Outcome Value) (v : Value)
    → short_circuit b (connective b) (Value.bool b) r ≡ ok v
    → ok (Value.bool b) ≡ ok v
deciding true r v h = h
deciding false r v h = h

-- A connective, by the values of its sides.
abbrev joined : Env → Bool → Expression → Expression → Outcome Value
joined env b l r = eval env l >>= λ a. short_circuit b (connective b) a (eval env r)

right_value :
    (b : Bool) (r : Outcome Value) (v : Value)
    → short_circuit b (connective b) (Value.bool (not b)) r ≡ ok v
    → r ≡ ok v
right_value b (ok a) v h = kept_right b a v h
right_value false (error s d) v h = absurd (let clash = h in cc)
right_value true (error s d) v h = absurd (let clash = h in cc)
right_value false panic v h = absurd (let clash = h in cc)
right_value true panic v h = absurd (let clash = h in cc)

literal_value :
    (env : Env) (b : Bool) (e : Expression) → is_bool b e ≡ true → eval env e ≡ ok (Value.bool b)
unfolding eval eval_literal
literal_value env b e h = ap (eval env) (is_bool-literal b e h)

fold_connective-joined :
    (env : Env) (b : Bool) (l r : Expression) (v : Value)
    → joined env b l r ≡ ok v
    → eval env (binary_op (connective b) l r) ≡ ok v
    → eval env (fold_connective b (connective b) l r) ≡ ok v
unfolding fold_connective eval eval_literal
fold_connective-joined env b l r v h whole =
    let (a, left, rest) = bind-ok (eval env l) _ v h in
    let at_left : (x : Bool)
        → is_bool x l ≡ true
        → short_circuit b (connective b) (Value.bool x) (eval env r) ≡ ok v =
      λ x p.
        ap (λ m. m >>= λ y. short_circuit b (connective b) y (eval env r))
          (sym (literal_value env x l p))
        ∙ h in
    let at_right : (x : Bool)
        → is_bool x r ≡ true
        → short_circuit b (connective b) a (ok (Value.bool x)) ≡ ok v =
      λ x p. ap (short_circuit b (connective b) a) (sym (literal_value env x r p)) ∙ rest in
    elim (Bool-cases (is_bool b l)) [
      | inl p ↦ rw p (deciding b (eval env r) v (at_left b p))
      | inr p ↦ elim (Bool-cases (is_bool b r)) [
        | inl q ↦ rw (p, q) (decided b a v (at_right b q))
        | inr q ↦ elim (Bool-cases (is_bool (not b) l)) [
          | inl s ↦ rw (p, q, s) (right_value b (eval env r) v (at_left (not b) s))
          | inr s ↦ elim (Bool-cases (is_bool (not b) r)) [
            | inl t ↦ rw (p, q, s, t) (left ∙ kept_left b a v (at_right (not b) t))
            | inr t ↦ rw (p, q, s, t) whole
          ]
        ]
      ]
    ]

-- Folding a connective keeps its value, and leaves the other operations as they are.
pub fold_boolean-Improves :
    (env : Env) (op : BinaryOp) (l r : Expression)
    → Improves env (binary_op op l r) (fold_boolean op l r)
unfolding fold_boolean
fold_boolean-Improves env and l r v h =
    fold_connective-joined env false l r v (unfold eval binary_value in h) h
fold_boolean-Improves env or l r v h =
    fold_connective-joined env true l r v (unfold eval binary_value in h) h
fold_boolean-Improves env _ l r v h = h
