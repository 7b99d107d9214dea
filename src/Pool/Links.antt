-- ===== src/Pool/Links.antt =====
-- Taking a node out of a doubly linked list and putting one in at its end: the links of an arena
-- (page/buffer_pool.rs).
use cypher_lite.Prelude.{
  ℕ, ◌<◌, ◌≡◌, ◌≢◌, sym, ap, subst, ◌∙◌, List, [], ◌∷◌, ◌++◌, arith, length, ◌==◌, if◌then◌else◌,
  append-nil,
}
use cypher_lite.Pool.Lru.{LruNode, head, tail, unlink, link_before}
use cypher_lite.Pool.Segments.{
  Fresh, Distinct, Apart, last, Seg, Fresh-append, append-Fresh, Distinct-append, last-Apart,
  Seg-prev, Seg-split, Seg-join, Seg-frame, Seg-redirect, last-Fresh,
}
use cypher_lite.Pool.Fields.{next_of, prev_of, unlink-fields, link_before-fields}

-- Every node of a list is in the arena.
abbrev pub Inside : List LruNode → List ℕ → Type 0
Inside arena [] = Unit
Inside arena (i ∷ is) = (i < length arena) × Inside arena is

pub Inside-append :
    (arena : List LruNode) (xs ys : List ℕ)
    → Inside arena (xs ++ ys)
    → Inside arena xs × Inside arena ys
Inside-append arena [] ys h = (tt, h)
Inside-append arena (x ∷ xs) ys h = let (a, b) = Inside-append arena xs ys (h.1) in ((h.0, a), b)

pub append-Inside :
    (arena : List LruNode) (xs ys : List ℕ)
    → Inside arena xs
    → Inside arena ys
    → Inside arena (xs ++ ys)
append-Inside arena [] ys h k = k
append-Inside arena (x ∷ xs) ys h k = (h.0, append-Inside arena xs ys (h.1) k)

pub last-Inside :
    (arena : List LruNode) (a : ℕ) (is : List ℕ) → Inside arena (a ∷ is) → last a is < length arena
last-Inside arena a [] h = h.0
last-Inside arena a (i ∷ is) h = last-Inside arena i is (h.1)

-- The nodes of an arena from the head to the tail.
abbrev pub Linked : List LruNode → List ℕ → Type 0
Linked arena is = Seg (next_of arena) (prev_of arena) head is tail

pub other {ℓ} : {A : Type ℓ} (a b : ℕ) (x y : A) → a ≢ b → (if b == a then x else y) ≡ y
other a b x y h = ground arith

pub here {ℓ} : {A : Type ℓ} (a : ℕ) (x y : A) → (if a == a then x else y) ≡ x
here a x y = ground arith

-- A node is put in at the end.
pub link_before-Linked :
    (arena : List LruNode) (idx : ℕ) (is : List ℕ)
    → Linked arena is
    → Inside arena (head ∷ tail ∷ is)
    → idx < length arena
    → Distinct (head ∷ tail ∷ is)
    → Fresh idx (head ∷ tail ∷ is)
    → Linked (link_before tail idx arena) (is ++ (idx ∷ []))
link_before-Linked arena idx is s n h d f =
    let (head_in, (tail_in, is_in)) = n in
    let (head_fresh, (tail_fresh, distinct)) = d in
    let (not_head, (not_tail, idx-Fresh)) = f in
    let p = prev_of arena tail in
    let p_last : p ≡ last head is = Seg-prev (next_of arena) (prev_of arena) head is tail s in
    let p_in : p < length arena =
      subst (λ x. x < length arena) (sym p_last) (last-Inside arena head is (head_in, is_in)) in
    let after = link_before tail idx arena in
    let fields = λ (j : ℕ). link_before-fields arena idx j h tail_in p_in in
    let nx : ℕ → ℕ = λ j. if p == j then idx else next_of arena j in
    let pv : ℕ → ℕ = λ j. if idx == j then p else prev_of arena j in
    let middle : Seg nx pv head is idx =
      Seg-redirect (next_of arena) (prev_of arena) nx pv p idx
        (λ i c. other i p idx (next_of arena i) c) (λ j c. other j idx p (prev_of arena j) c) head
        is tail (head_fresh.1, distinct) idx-Fresh p_last (ground arith) (ground arith) s in
    let p_fresh : idx ≢ p = λ c. last-Fresh idx head is (not_head, idx-Fresh) (c ∙ p_last) in
    let whole : Seg (next_of after) (prev_of after) head is idx =
      Seg-frame nx pv (next_of after) (prev_of after) idx tail
        (λ i c.
          (fields i).0 ∙ ap (λ x. if p == i then idx else x) (other i idx tail (next_of arena i) c))
        (λ j c. (fields j).1 ∙ other j tail idx (pv j) c) head is idx (not_head, idx-Fresh)
        (append-Fresh tail is (idx ∷ []) tail_fresh ((λ c. not_tail (sym c)), tt)) middle in
    Seg-join (next_of after) (prev_of after) head is idx [] tail whole (
      (fields idx).0
          ∙ other idx p idx (if idx == idx then tail else next_of arena idx) p_fresh
          ∙ here idx tail (next_of arena idx),
      (fields tail).1 ∙ here tail idx (pv tail),
    )

-- The part before a node, when it is taken out.
unlink-left :
    (arena : List LruNode) (xs : List ℕ) (idx : ℕ)
    → Seg (next_of arena) (prev_of arena) head xs idx
    → Inside arena (head ∷ xs)
    → next_of arena idx < length arena
    → Distinct (head ∷ xs)
    → Fresh (next_of arena idx) xs
    → Seg (next_of (unlink idx arena)) (prev_of (unlink idx arena)) head xs (next_of arena idx)
unlink-left arena xs idx s inside n_in d f =
    let p = prev_of arena idx in
    let n = next_of arena idx in
    let p_last : p ≡ last head xs = Seg-prev (next_of arena) (prev_of arena) head xs idx s in
    let p_in : p < length arena =
      subst (λ x. x < length arena) (sym p_last) (last-Inside arena head xs inside) in
    let after = unlink idx arena in
    let fields = λ (j : ℕ). unlink-fields arena idx j p_in n_in in
    Seg-redirect (next_of arena) (prev_of arena) (next_of after) (prev_of after) p n
      (λ i c. (fields i).0 ∙ other i p n (next_of arena i) c)
      (λ j c. (fields j).1 ∙ other j n p (prev_of arena j) c) head xs idx d f p_last
      ((fields p).0 ∙ here p n (next_of arena p)) ((fields n).1 ∙ here n p (prev_of arena n)) s

-- The part behind the node after it.
unlink-right :
    (arena : List LruNode) (idx : ℕ) (ys : List ℕ)
    → Seg (next_of arena) (prev_of arena) (next_of arena idx) ys tail
    → prev_of arena idx < length arena
    → next_of arena idx < length arena
    → Fresh (prev_of arena idx) (next_of arena idx ∷ ys)
    → Fresh (next_of arena idx) (ys ++ (tail ∷ []))
    → Seg (next_of (unlink idx arena)) (prev_of (unlink idx arena)) (next_of arena idx) ys tail
unlink-right arena idx ys s p_in n_in f g =
    let p = prev_of arena idx in
    let n = next_of arena idx in
    let after = unlink idx arena in
    let fields = λ (j : ℕ). unlink-fields arena idx j p_in n_in in
    Seg-frame (next_of arena) (prev_of arena) (next_of after) (prev_of after) p n
      (λ i c. (fields i).0 ∙ other i p n (next_of arena i) c)
      (λ j c. (fields j).1 ∙ other j n p (prev_of arena j) c) n ys tail f g s

second-Fresh : (x y : ℕ) (xs ys : List ℕ) → Apart xs (x ∷ y ∷ ys) → Fresh y xs
second-Fresh x y [] ys h = tt
second-Fresh x y (z ∷ xs) ys h = ((λ e. ((h.0).1).0 (sym e)), second-Fresh x y xs ys (h.1))

-- A node is taken out.
pub unlink-Linked :
    (arena : List LruNode) (xs : List ℕ) (idx : ℕ) (ys : List ℕ)
    → Linked arena (xs ++ (idx ∷ ys))
    → Inside arena (head ∷ tail ∷ (xs ++ (idx ∷ ys)))
    → Distinct (head ∷ tail ∷ (xs ++ (idx ∷ ys)))
    → Linked (unlink idx arena) (xs ++ ys)
unlink-Linked arena xs idx [] s (head_in, (tail_in, is_in)) (head_fresh, (tail_fresh, distinct)) =
    let (left, right) = Seg-split (next_of arena) (prev_of arena) head xs idx [] tail s in
    let (xs_in, _) = Inside-append arena xs (idx ∷ []) is_in in
    let (xs_distinct, _, _) = Distinct-append xs (idx ∷ []) distinct in
    let (head_xs, _) = Fresh-append head xs (idx ∷ []) (head_fresh.1) in
    let (tail_xs, _) = Fresh-append tail xs (idx ∷ []) tail_fresh in
    let n : next_of arena idx ≡ tail = right.0 in
    let whole =
      unlink-left arena xs idx left (head_in, xs_in) (subst (λ x. x < length arena) (sym n) tail_in)
        (head_xs, xs_distinct) (subst (λ x. Fresh x xs) (sym n) tail_xs) in
    subst (λ is. Linked (unlink idx arena) is) (sym (append-nil xs))
      (subst (λ x. Seg (next_of (unlink idx arena)) (prev_of (unlink idx arena)) head xs x) n whole)
unlink-Linked arena xs idx (y ∷ ys) s (head_in, (tail_in, is_in))
      (head_fresh, (tail_fresh, distinct)) =
    let (left, right) = Seg-split (next_of arena) (prev_of arena) head xs idx (y ∷ ys) tail s in
    let (xs_in, rest_in) = Inside-append arena xs (idx ∷ y ∷ ys) is_in in
    let (xs_distinct, rest-Distinct, apart) = Distinct-append xs (idx ∷ y ∷ ys) distinct in
    let (head_xs, head_rest) = Fresh-append head xs (idx ∷ y ∷ ys) (head_fresh.1) in
    let (_, tail_rest) = Fresh-append tail xs (idx ∷ y ∷ ys) tail_fresh in
    let n : next_of arena idx ≡ y = right.0 in
    let p : prev_of arena idx ≡ last head xs =
      Seg-prev (next_of arena) (prev_of arena) head xs idx left in
    let n_in : next_of arena idx < length arena =
      subst (λ x. x < length arena) (sym n) ((rest_in.1).0) in
    let p_in : prev_of arena idx < length arena =
      subst (λ x. x < length arena) (sym p) (last-Inside arena head xs (head_in, xs_in)) in
    let before =
      unlink-left arena xs idx left (head_in, xs_in) n_in (head_xs, xs_distinct)
        (subst (λ x. Fresh x xs) (sym n) (second-Fresh idx y xs ys apart)) in
    let p_fresh : Fresh (prev_of arena idx) (y ∷ ys) =
      subst (λ x. Fresh x (y ∷ ys)) (sym p)
        ((last-Apart head xs (idx ∷ y ∷ ys) (head_rest, apart)).1) in
    let y_fresh : Fresh y (ys ++ (tail ∷ [])) =
      append-Fresh y ys (tail ∷ []) ((rest-Distinct.1).0) ((λ e. ((tail_rest.1).0) (sym e)), tt) in
    let behind =
      unlink-right arena idx ys
        (subst (λ x. Seg (next_of arena) (prev_of arena) x ys tail) (sym n) (right.2)) p_in n_in
        (subst (λ x. Fresh (prev_of arena idx) (x ∷ ys)) (sym n) p_fresh)
        (subst (λ x. Fresh x (ys ++ (tail ∷ []))) (sym n) y_fresh) in
    subst (λ x. Linked (unlink idx arena) (xs ++ (x ∷ ys))) n
      (Seg-join (next_of (unlink idx arena)) (prev_of (unlink idx arena)) head xs
        (next_of arena idx) ys tail before behind)
