-- ===== src/Pool/Insertion.antt =====
-- Putting a page at the end of an `LruList` (page/buffer_pool.rs).
use cypher_lite.Prelude.{
  ℕ, ◌+◌, ◌<◌, ◌≡◌, ◌≢◌, refl, sym, ap, subst, ◌∙◌, none, some, List, [], ◌∷◌, ◌++◌, length, map,
  ◌==◌, append_assoc, ==_iff, Bool-cases, inl, inr,
}
use cypher_lite.OrdMap
use cypher_lite.OrdMap.{OrdMap}
use cypher_lite.OrdMap.Laws.{get-insert}
use cypher_lite.Pool.Lru.{LruNode, LruList, head, tail, node_at, link_before}
use cypher_lite.Pool.Segments.{
  Fresh, Distinct, Apart-Fresh, Member, Fresh-append, append-Fresh, Distinct-append, Member-left,
  Member-last, Fresh-Member, Seg-frame, Seg-prev,
}
use cypher_lite.Pool.Links.{
  Inside, Linked, Inside-append, link_before-Linked, last-Inside, other, here,
}
use cypher_lite.Pool.Fields.{next_of, prev_of, page_of, link_before-fields}
use cypher_lite.Pool.Recency.{Placed, IsLru, pages}
use cypher_lite.Pool.Places.{map-pages, map-append, append-Placed, Placed-pages, Inside-length}

Placed-insert :
    (arena : List LruNode) (m : OrdMap ℕ) (page idx : ℕ) (zs : List ℕ)
    → OrdMap.get page m ≡ none
    → Placed arena m zs
    → Placed arena (OrdMap.insert page idx m) zs
Placed-insert arena m page idx [] h k = tt
Placed-insert arena m page idx (z ∷ zs) h k = (
  get-insert page (page_of arena z) idx m
      ∙ other (page_of arena z) page (some idx) (OrdMap.get (page_of arena z) m)
          (λ e. let clash = sym (k.0) ∙ ap (λ p. OrdMap.get p m) e ∙ h in cc)
      ∙ k.0,
  Placed-insert arena m page idx zs h (k.1),
)

-- An arena that differs at one node, which is not of the list.
Placed-other :
    (a b : List LruNode) (m : OrdMap ℕ) (idx : ℕ) (is : List ℕ)
    → ((j : ℕ) → j ≢ idx → node_at b j ≡ node_at a j)
    → Fresh idx is
    → Placed a m is
    → Placed b m is
Placed-other a b m idx [] e f h = tt
Placed-other a b m idx (i ∷ is) e f h = (
  ap (λ n. OrdMap.get (n.page_id) m) (e i (λ c. f.0 (sym c))) ∙ h.0,
  Placed-other a b m idx is e (f.1) (h.1),
)

pages-other :
    (a b : List LruNode) (idx : ℕ) (is : List ℕ)
    → ((j : ℕ) → j ≢ idx → node_at b j ≡ node_at a j)
    → Fresh idx is
    → map (page_of b) is ≡ map (page_of a) is
pages-other a b idx [] e f = refl
pages-other a b idx (i ∷ is) e f =
    λ k. ap (λ n. n.page_id) (e i (λ c. f.0 (sym c))) k ∷ pages-other a b idx is e (f.1) k

-- The arena `a` of a list in which a node has been made ready for a page.
pub record IsReady (l : LruList) (is : List ℕ) (page idx : ℕ) (a : List LruNode) (rest : List ℕ)
    : Type 0 where
  pub same : (j : ℕ) → j ≢ idx → node_at a j ≡ node_at l.arena j
  pub own : page_of a idx ≡ page
  pub inside : Inside a (head ∷ tail ∷ (is ++ (idx ∷ rest)))
  pub distinct : Distinct (head ∷ tail ∷ (is ++ (idx ∷ rest)))
  pub sized : length a ≡ 2 + length (is ++ (idx ∷ rest))

module _ (l : LruList) (is : List ℕ) (page idx : ℕ) (a : List LruNode) (rest : List ℕ)
    (inv : IsLru l is) (ready : IsReady l is page idx a rest)
    (absent : OrdMap.get page l.map ≡ none) where
  abbrev pub linked_in : List LruNode
  linked_in = link_before tail idx a

  nodes_in : Inside a (head ∷ tail ∷ is) × (idx < length a)
  nodes_in =
      let (h, (t, all)) = ready.inside in
      let (is_in, more) = Inside-append a is (idx ∷ rest) all in ((h, (t, is_in)), more.0)

  nodes-Distinct : Distinct (head ∷ tail ∷ is) × Fresh idx (head ∷ tail ∷ is)
  nodes-Distinct =
      let (h, (t, all)) = ready.distinct in
      let (head_is, head_i) = Fresh-append head is (idx ∷ rest) (h.1) in
      let (tail_is, tail_i) = Fresh-append tail is (idx ∷ rest) t in
      let (d, _, apart) = Distinct-append is (idx ∷ rest) all in
      (
        ((h.0, head_is), (tail_is, d)),
        ((λ e. head_i.0 (sym e)), ((λ e. tail_i.0 (sym e)), Apart-Fresh idx is rest apart)),
      )

  idx-Fresh : Fresh idx is
  idx-Fresh = ((nodes-Distinct.1).1).1

  ready-Linked : Linked a is
  ready-Linked =
      let (not_head, (not_tail, f)) = nodes-Distinct.1 in
      Seg-frame (next_of l.arena) (prev_of l.arena) (next_of a) (prev_of a) idx idx
        (λ j c. ap (λ n. n.next) (ready.same j c)) (λ j c. ap (λ n. n.prev) (ready.same j c)) head
        is tail (not_head, f) (append-Fresh idx is (tail ∷ []) f (not_tail, tt)) inv.linked

  link_same : (j : ℕ) → (page_of linked_in j ≡ page_of a j) × (length linked_in ≡ length a)
  link_same j =
      let ((h, (t, is_in)), i_in) = nodes_in in
      let last_in =
        subst (λ x. x < length a) (sym (Seg-prev (next_of a) (prev_of a) head is tail ready-Linked))
          (last-Inside a head is (h, is_in)) in
      let f = link_before-fields a idx j i_in t last_in in (f.2, f.3)

  all_behind : (is ++ (idx ∷ [])) ++ rest ≡ is ++ (idx ∷ rest)
  all_behind = append_assoc is (idx ∷ []) rest

  ready_found :
      (q j : ℕ)
      → OrdMap.get q (OrdMap.insert page idx l.map) ≡ some j
      → Member j (is ++ (idx ∷ [])) × (page_of linked_in j ≡ q)
  ready_found q j h = elim (Bool-cases (page == q)) [
    | inl t ↦
        let found_it : some idx ≡ some j = sym (get-insert page q idx l.map ∙ rw t refl) ∙ h in
        let e : idx ≡ j = cc in
        (
          subst (λ x. Member x (is ++ (idx ∷ []))) e (Member-last idx is),
          ap (page_of linked_in) (sym e) ∙ (link_same idx).0 ∙ ready.own ∙ (==_iff page q).0 t,
        )
    | inr f ↦
        let kept : OrdMap.get q l.map ≡ some j =
          sym (get-insert page q idx l.map ∙ rw f refl) ∙ h in
        let (m, e) = inv.found q j kept in
        (
          Member-left j is (idx ∷ []) m,
          (link_same j).0
              ∙ ap (λ n. n.page_id) (ready.same j (Fresh-Member idx j is idx-Fresh m))
              ∙ e,
        )
  ]

  pub ready-IsLru :
      IsLru
        (record { arena = linked_in; map = OrdMap.insert page idx l.map; free_slots = rest })
        (is ++ (idx ∷ []))
  ready-IsLru = record {
    linked =
        link_before-Linked a idx is ready-Linked (nodes_in.0) (nodes_in.1) (nodes-Distinct.0)
          (nodes-Distinct.1);
    inside =
        Inside-length a linked_in (head ∷ tail ∷ ((is ++ (idx ∷ [])) ++ rest)) ((link_same 0).1)
          (subst (λ z. Inside a (head ∷ tail ∷ z)) (sym all_behind) ready.inside);
    distinct = subst (λ z. Distinct (head ∷ tail ∷ z)) (sym all_behind) ready.distinct;
    sized = (link_same 0).1 ∙ ready.sized ∙ ap (λ z. 2 + length z) (sym all_behind);
    placed =
        Placed-pages a linked_in (OrdMap.insert page idx l.map) (is ++ (idx ∷ []))
          (λ j. (link_same j).0)
          (append-Placed a (OrdMap.insert page idx l.map) is (idx ∷ [])
            (Placed-other l.arena a (OrdMap.insert page idx l.map) idx is ready.same idx-Fresh
              (Placed-insert l.arena l.map page idx is absent inv.placed))
            (
              ap (λ p. OrdMap.get p (OrdMap.insert page idx l.map)) ready.own
                  ∙ get-insert page page idx l.map
                  ∙ here page (some idx) (OrdMap.get page l.map),
              tt,
            ));
    found = ready_found;
  }

  pub ready-pages : map (page_of linked_in) (is ++ (idx ∷ [])) ≡ pages l is ++ (page ∷ [])
  ready-pages =
      map-pages a linked_in (is ++ (idx ∷ [])) (λ j. (link_same j).0)
      ∙ map-append (page_of a) is (idx ∷ [])
      ∙ ap (λ ps. ps ++ (page_of a idx ∷ [])) (pages-other l.arena a idx is ready.same idx-Fresh)
      ∙ ap (λ p. pages l is ++ (p ∷ [])) ready.own
