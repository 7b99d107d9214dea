-- ===== src/Pool/Pushing.antt =====
-- `push_back` of an `LruList`, in a free slot or in a new one (page/buffer_pool.rs).
use cypher_lite.Prelude.{
  ℕ, zero, suc, ◌+◌, ◌<◌, ◌≤◌, ◌≡◌, ◌≢◌, refl, sym, ap, subst, ◌∙◌, none, List, [], ◌∷◌, ◌++◌,
  arith, length, set, append-nil, length-append, length-set, inl, inr, ◌⊎◌,
}
use cypher_lite.OrdMap
use cypher_lite.OrdMap.{OrdMap}
use cypher_lite.Pool.Lru.{LruNode, LruList, head, tail, node_at, alloc_node, push_back, link_before}
use cypher_lite.Pool.Segments.{Distinct, Apart, append-Distinct}
use cypher_lite.Pool.Links.{Inside, Inside-append, append-Inside, other, here}
use cypher_lite.Pool.Fields.{node_at-set}
use cypher_lite.Pool.Recency.{IsLru, Lists}
use cypher_lite.Pool.Places.{Inside-length}
use cypher_lite.Pool.Insertion.{IsReady, ready-IsLru, ready-pages}

abbrev fresh_node : ℕ → LruNode
fresh_node page = record { prev = 0; next = 0; page_id = page }

list_cases : (ns : List ℕ) → (ns ≡ []) ⊎ ((n : ℕ) × (rest : List ℕ) × (ns ≡ n ∷ rest))
list_cases [] = inl refl
list_cases (n ∷ rest) = inr (n, rest, refl)

push_back-reuse :
    (l : LruList) (page idx : ℕ) (rest : List ℕ)
    → l.free_slots ≡ idx ∷ rest
    → push_back l page ≡ record {
      arena = link_before tail idx (set l.arena idx (fresh_node page));
      map = OrdMap.insert page idx l.map;
      free_slots = rest;
    }
unfolding push_back alloc_node
push_back-reuse l page idx rest f = rw (push_back, alloc_node, f) refl

abbrev longer_list : LruList → ℕ → List ℕ → LruList
longer_list l page free = record {
  arena = link_before tail (length l.arena) (l.arena ++ (fresh_node page ∷ []));
  map = OrdMap.insert page (length l.arena) l.map;
  free_slots = free;
}

push_back-grow :
    (l : LruList) (page : ℕ) → l.free_slots ≡ [] → push_back l page ≡ longer_list l page []
unfolding push_back alloc_node
push_back-grow l page f = rw (push_back, alloc_node, f) (ap (longer_list l page) f)

node_at-push :
    (arena : List LruNode) (n : LruNode) (j : ℕ)
    → j ≢ length arena
    → node_at (arena ++ (n ∷ [])) j ≡ node_at arena j
unfolding node_at
node_at-push [] n zero h = absurd (h refl)
node_at-push [] n (suc j) h = refl
node_at-push (x ∷ xs) n zero h = refl
node_at-push (x ∷ xs) n (suc j) h = node_at-push xs n j (λ e. h (ap suc e))

node_at-end : (arena : List LruNode) (n : LruNode) → node_at (arena ++ (n ∷ [])) (length arena) ≡ n
unfolding node_at
node_at-end [] n = refl
node_at-end (x ∷ xs) n = node_at-end xs n

Inside-grow : (a b : List LruNode) (is : List ℕ) → length a ≤ length b → Inside a is → Inside b is
Inside-grow a b [] h k = tt
Inside-grow a b (i ∷ is) h k = (omega (arith, k.0), Inside-grow a b is h (k.1))

-- The slot behind the arena is new.
Inside-Apart : (arena : List LruNode) (is : List ℕ) → Inside arena is → Apart is (length arena ∷ [])
Inside-Apart arena [] h = tt
Inside-Apart arena (i ∷ is) h =
    let below = h.0 in (((λ e. omega arith), tt), Inside-Apart arena is (h.1))

module _ (l : LruList) (is : List ℕ) (page : ℕ) (inv : IsLru l is) where
  reused :
      (idx : ℕ) (rest : List ℕ)
      → l.free_slots ≡ idx ∷ rest
      → IsReady l is page idx (set l.arena idx (fresh_node page)) rest
  reused idx rest f =
      let inside : Inside l.arena (head ∷ tail ∷ (is ++ (idx ∷ rest))) =
        subst (λ z. Inside l.arena (head ∷ tail ∷ (is ++ z))) f inv.inside in
      let (_, (_, all)) = inside in
      let (_, more) = Inside-append l.arena is (idx ∷ rest) all in
      let idx_in : idx < length l.arena = more.0 in
      let n = fresh_node page in
      record {
        same = λ j c. node_at-set l.arena idx n j idx_in ∙ other j idx n (node_at l.arena j) c;
        own =
            ap (λ n. n.page_id)
              (node_at-set l.arena idx n idx idx_in ∙ here idx n (node_at l.arena idx));
        inside =
            Inside-length l.arena (set l.arena idx n) (head ∷ tail ∷ (is ++ (idx ∷ rest)))
              (length-set l.arena idx n) inside;
        distinct = subst (λ z. Distinct (head ∷ tail ∷ (is ++ z))) f inv.distinct;
        sized = length-set l.arena idx n ∙ inv.sized ∙ ap (λ z. 2 + length (is ++ z)) f;
      }

  grown :
      l.free_slots ≡ [] → IsReady l is page (length l.arena) (l.arena ++ (fresh_node page ∷ [])) []
  grown f =
      let n = fresh_node page in
      let idx = length l.arena in
      let no_free : is ++ l.free_slots ≡ is = ap (λ z. is ++ z) f ∙ append-nil is in
      let inside : Inside l.arena (head ∷ tail ∷ is) =
        subst (λ z. Inside l.arena (head ∷ tail ∷ z)) no_free inv.inside in
      let distinct : Distinct (head ∷ tail ∷ is) =
        subst (λ z. Distinct (head ∷ tail ∷ z)) no_free inv.distinct in
      let longer : length (l.arena ++ (n ∷ [])) ≡ suc idx =
        length-append l.arena (n ∷ []) ∙ omega arith in
      record {
        same = λ j c. node_at-push l.arena n j c;
        own = ap (λ n. n.page_id) (node_at-end l.arena n);
        inside =
            append-Inside (l.arena ++ (n ∷ [])) (head ∷ tail ∷ is) (idx ∷ [])
              (Inside-grow l.arena (l.arena ++ (n ∷ [])) (head ∷ tail ∷ is) (omega (arith, longer))
                inside)
              (omega (arith, longer), tt);
        distinct =
            append-Distinct (head ∷ tail ∷ is) (idx ∷ []) distinct (tt, tt)
              (Inside-Apart l.arena (head ∷ tail ∷ is) inside);
        sized =
            longer
            ∙ ap suc (inv.sized ∙ ap (λ z. 2 + length z) no_free)
            ∙ omega (arith, length-append is (idx ∷ []));
      }

-- A page that is not in the list comes to its end.
pub push_back-Lists :
    (l : LruList) (ps : List ℕ) (page : ℕ)
    → Lists l ps
    → OrdMap.get page l.map ≡ none
    → Lists (push_back l page) (ps ++ (page ∷ []))
push_back-Lists l ps page (is, inv, e) absent = elim (list_cases l.free_slots) [
  | inl f ↦
      let idx = length l.arena in
      let a = l.arena ++ (fresh_node page ∷ []) in
      let ready = grown l is page inv f in
      subst (λ m. Lists m (ps ++ (page ∷ []))) (sym (push_back-grow l page f))
        (
          is ++ (idx ∷ []),
          ready-IsLru l is page idx a [] inv ready absent,
          ready-pages l is page idx a [] inv ready absent ∙ ap (λ qs. qs ++ (page ∷ [])) e,
        )
  | inr (idx, rest, f) ↦
      let a = set l.arena idx (fresh_node page) in
      let ready = reused l is page inv idx rest f in
      subst (λ m. Lists m (ps ++ (page ∷ []))) (sym (push_back-reuse l page idx rest f))
        (
          is ++ (idx ∷ []),
          ready-IsLru l is page idx a rest inv ready absent,
          ready-pages l is page idx a rest inv ready absent ∙ ap (λ qs. qs ++ (page ∷ [])) e,
        )
]
