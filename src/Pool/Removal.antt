-- ===== src/Pool/Removal.antt =====
-- Removing a page from an `LruList`, and moving one to the end (page/buffer_pool.rs).
use cypher_lite.Prelude.{
  ℕ, ◌+◌, ◌<◌, ◌≡◌, ◌≢◌, refl, sym, ap, subst, ◌∙◌, true, none, some, List, [], ◌∷◌, ◌++◌, arith,
  length, map, ◌==◌, append_assoc, length-append, ==_refl, ==_iff, Bool-cases, inl, inr,
}
use cypher_lite.OrdMap
use cypher_lite.OrdMap.{OrdMap}
use cypher_lite.OrdMap.Laws.{get-remove}
use cypher_lite.Pool.Lru.{LruNode, LruList, head, tail, unlink, link_before}
use cypher_lite.Pool.Segments.{
  Fresh, Distinct, Member, Fresh-append, Distinct-append, Member-without, Member-move, Fresh-move,
  Distinct-move, Apart-Fresh, Seg-prev, Seg-split,
}
use cypher_lite.Pool.Links.{
  Inside, Linked, Inside-append, unlink-Linked, link_before-Linked, last-Inside,
}
use cypher_lite.Pool.Fields.{next_of, prev_of, page_of, unlink-fields, link_before-fields}
use cypher_lite.Pool.Recency.{IsLru, pages, without}
use cypher_lite.Pool.Places.{
  Misses, Misses-Fresh, without-Misses, retain-append, map-append, Placed-append, append-Placed,
  Placed-pages, Placed-remove, Inside-length, Inside-move, next_in,
}

-- What holds of the nodes of a list with a node inside.
module _ (l : LruList) (xs : List ℕ) (i : ℕ) (ys : List ℕ) (inv : IsLru l (xs ++ (i ∷ ys))) where
  nodes-Inside : Inside l.arena (head ∷ tail ∷ (xs ++ (i ∷ ys)))
  nodes-Inside =
      let (h, (t, rest)) = inv.inside in
      let (is, _) = Inside-append l.arena (xs ++ (i ∷ ys)) l.free_slots rest in (h, (t, is))

  nodes-Distinct : Distinct (head ∷ tail ∷ (xs ++ (i ∷ ys)))
  nodes-Distinct =
      let (h, (t, rest)) = inv.distinct in
      let (head_is, _) = Fresh-append head (xs ++ (i ∷ ys)) l.free_slots (h.1) in
      let (tail_is, _) = Fresh-append tail (xs ++ (i ∷ ys)) l.free_slots t in
      let (is, _, _) = Distinct-append (xs ++ (i ∷ ys)) l.free_slots rest in
      ((h.0, head_is), (tail_is, is))

  unlinked : Linked (unlink i l.arena) (xs ++ ys)
  unlinked = unlink-Linked l.arena xs i ys inv.linked nodes-Inside nodes-Distinct

  moved-Inside : Inside l.arena (head ∷ tail ∷ ((xs ++ ys) ++ (i ∷ l.free_slots)))
  moved-Inside =
      let (h, (t, rest)) = inv.inside in (h, (t, Inside-move l.arena xs i ys l.free_slots rest))

  moved-Distinct : Distinct (head ∷ tail ∷ ((xs ++ ys) ++ (i ∷ l.free_slots)))
  moved-Distinct =
      let (h, (t, rest)) = inv.distinct in
      (
        (h.0, Fresh-move head xs i ys l.free_slots (h.1)),
        (Fresh-move tail xs i ys l.free_slots t, Distinct-move xs i ys l.free_slots rest),
      )

  moved_sized : length l.arena ≡ 2 + length ((xs ++ ys) ++ (i ∷ l.free_slots))
  moved_sized = omega (
    arith,
    inv.sized,
    length-append (xs ++ (i ∷ ys)) l.free_slots,
    length-append xs (i ∷ ys),
    length-append (xs ++ ys) (i ∷ l.free_slots),
    length-append xs ys,
  )

  -- The other nodes are not `i`.
  others-Fresh : Fresh i xs × Fresh i ys
  others-Fresh =
      let (_, (_, is)) = nodes-Distinct in
      let (_, rest, apart) = Distinct-append xs (i ∷ ys) is in (Apart-Fresh i xs ys apart, rest.0)

  prev_inside : prev_of l.arena i < length l.arena
  prev_inside =
      let (left, _) = Seg-split (next_of l.arena) (prev_of l.arena) head xs i ys tail inv.linked in
      let (h, (_, is)) = nodes-Inside in
      let (xs_in, _) = Inside-append l.arena xs (i ∷ ys) is in
      subst (λ x. x < length l.arena)
        (sym (Seg-prev (next_of l.arena) (prev_of l.arena) head xs i left))
        (last-Inside l.arena head xs (h, xs_in))

  next_inside : next_of l.arena i < length l.arena
  next_inside =
      let (_, right) = Seg-split (next_of l.arena) (prev_of l.arena) head xs i ys tail inv.linked in
      let (_, (t, is)) = nodes-Inside in
      let (_, rest) = Inside-append l.arena xs (i ∷ ys) is in next_in l.arena i ys right t (rest.1)

  pub unlink_same :
      (j : ℕ)
      → (page_of (unlink i l.arena) j ≡ page_of l.arena j)
        × (length (unlink i l.arena) ≡ length l.arena)
  unlink_same j = let f = unlink-fields l.arena i j prev_inside next_inside in (f.2, f.3)

  module _ (page : ℕ) (is_here : OrdMap.get page l.map ≡ some i) where
    pub here_page : page_of l.arena i ≡ page
    here_page = (inv.found page i is_here).1

    others_missed : Misses (OrdMap.get page l.map) xs × Misses (OrdMap.get page l.map) ys
    others_missed =
        let (fx, fy) = others-Fresh in
        (
          subst (λ o. Misses o xs) (sym is_here) (Misses-Fresh i xs fx),
          subst (λ o. Misses o ys) (sym is_here) (Misses-Fresh i ys fy),
        )

    -- The list without the node has the other pages, in order.
    pub without-pages : without page (pages l (xs ++ (i ∷ ys))) ≡ pages l (xs ++ ys)
    without-pages =
        let (px, py) = Placed-append l.arena l.map xs (i ∷ ys) inv.placed in
        let (mx, my) = others_missed in
        let gone : (page_of l.arena i == page) ≡ true =
          ap (λ p. p == page) here_page ∙ ==_refl page in
        ap (without page) (map-append (page_of l.arena) xs (i ∷ ys))
        ∙ retain-append page (map (page_of l.arena) xs) (map (page_of l.arena) (i ∷ ys))
        ∙ rw
            (
              gone,
              without-Misses l.arena l.map page xs px mx,
              without-Misses l.arena l.map page ys (py.1) my,
            )
            (sym (map-append (page_of l.arena) xs ys))

    -- What the map finds without the page.
    found_after :
        (q j : ℕ)
        → OrdMap.get q (OrdMap.remove page l.map) ≡ some j
        → Member j (xs ++ ys) × (page_of (unlink i l.arena) j ≡ q)
    found_after q j h = elim (Bool-cases (page == q)) [
      | inl t ↦ absurd (
          let gone : OrdMap.get q (OrdMap.remove page l.map) ≡ none =
            get-remove page q l.map ∙ rw t refl in
          let clash = sym gone ∙ h in cc)
      | inr f ↦
          let kept : OrdMap.get q l.map ≡ some j = sym (get-remove page q l.map ∙ rw f refl) ∙ h in
          let (m, e) = inv.found q j kept in
          let differs : j ≢ i = λ c.
            let same : page ≡ q = sym here_page ∙ ap (page_of l.arena) (sym c) ∙ e in
            let both : (page == q) ≡ true = (==_iff page q).1 same in
            let clash = sym both ∙ f in cc in
          (Member-without j i xs ys m differs, (unlink_same j).0 ∙ e)
    ]

    pub remove-IsLru :
        IsLru
          (record {
            arena = unlink i l.arena;
            map = OrdMap.remove page l.map;
            free_slots = i ∷ l.free_slots;
          })
          (xs ++ ys)
    remove-IsLru =
        let (px, py) = Placed-append l.arena l.map xs (i ∷ ys) inv.placed in
        let (mx, my) = others_missed in
        record {
          linked = unlinked;
          inside =
              Inside-length l.arena (unlink i l.arena)
                (head ∷ tail ∷ ((xs ++ ys) ++ (i ∷ l.free_slots))) ((unlink_same 0).1) moved-Inside;
          distinct = moved-Distinct;
          sized = (unlink_same 0).1 ∙ moved_sized;
          placed =
              Placed-pages l.arena (unlink i l.arena) (OrdMap.remove page l.map) (xs ++ ys)
                (λ j. (unlink_same j).0)
                (append-Placed l.arena (OrdMap.remove page l.map) xs ys
                  (Placed-remove l.arena l.map page xs px mx)
                  (Placed-remove l.arena l.map page ys (py.1) my));
          found = found_after;
        }

    rest-Inside : Inside l.arena (head ∷ tail ∷ (xs ++ ys)) × (i < length l.arena)
    rest-Inside =
        let (h, (t, rest)) = moved-Inside in
        let (is, more) = Inside-append l.arena (xs ++ ys) (i ∷ l.free_slots) rest in
        ((h, (t, is)), more.0)

    rest-Distinct : Distinct (head ∷ tail ∷ (xs ++ ys)) × Fresh i (head ∷ tail ∷ (xs ++ ys))
    rest-Distinct =
        let (h, (t, rest)) = moved-Distinct in
        let (head_is, head_i) = Fresh-append head (xs ++ ys) (i ∷ l.free_slots) (h.1) in
        let (tail_is, tail_i) = Fresh-append tail (xs ++ ys) (i ∷ l.free_slots) t in
        let (is, _, apart) = Distinct-append (xs ++ ys) (i ∷ l.free_slots) rest in
        (
          ((h.0, head_is), (tail_is, is)),
          (
            (λ e. head_i.0 (sym e)),
            ((λ e. tail_i.0 (sym e)), Apart-Fresh i (xs ++ ys) l.free_slots apart),
          ),
        )

    -- The arena after the move.
    abbrev pub relinked : List LruNode
    relinked = link_before tail i (unlink i l.arena)

    unlinked-Inside : Inside (unlink i l.arena) (head ∷ tail ∷ (xs ++ ys))
    unlinked-Inside =
        Inside-length l.arena (unlink i l.arena) (head ∷ tail ∷ (xs ++ ys)) ((unlink_same 0).1)
          (rest-Inside.0)

    i_inside : i < length (unlink i l.arena)
    i_inside = subst (λ n. i < n) (sym ((unlink_same 0).1)) (rest-Inside.1)

    pub relink_same :
        (j : ℕ) → (page_of relinked j ≡ page_of l.arena j) × (length relinked ≡ length l.arena)
    relink_same j =
        let (h, (t, is)) = unlinked-Inside in
        let last_in =
          subst (λ x. x < length (unlink i l.arena))
            (sym (
              Seg-prev (next_of (unlink i l.arena)) (prev_of (unlink i l.arena)) head (xs ++ ys)
                tail unlinked))
            (last-Inside (unlink i l.arena) head (xs ++ ys) (h, is)) in
        let f = link_before-fields (unlink i l.arena) i j i_inside t last_in in
        (f.2 ∙ (unlink_same j).0, f.3 ∙ (unlink_same j).1)

    behind_all : ((xs ++ ys) ++ (i ∷ [])) ++ l.free_slots ≡ (xs ++ ys) ++ (i ∷ l.free_slots)
    behind_all = append_assoc (xs ++ ys) (i ∷ []) l.free_slots

    pub touch-IsLru : IsLru (record (l) { arena = relinked }) ((xs ++ ys) ++ (i ∷ []))
    touch-IsLru =
        let (px, py) = Placed-append l.arena l.map xs (i ∷ ys) inv.placed in
        record {
          linked =
              link_before-Linked (unlink i l.arena) i (xs ++ ys) unlinked unlinked-Inside i_inside
                (rest-Distinct.0) (rest-Distinct.1);
          inside =
              Inside-length l.arena relinked
                (head ∷ tail ∷ (((xs ++ ys) ++ (i ∷ [])) ++ l.free_slots)) ((relink_same 0).1)
                (subst (λ z. Inside l.arena (head ∷ tail ∷ z)) (sym behind_all) moved-Inside);
          distinct = subst (λ z. Distinct (head ∷ tail ∷ z)) (sym behind_all) moved-Distinct;
          sized = (relink_same 0).1 ∙ moved_sized ∙ ap (λ z. 2 + length z) (sym behind_all);
          placed =
              Placed-pages l.arena relinked l.map ((xs ++ ys) ++ (i ∷ [])) (λ j. (relink_same j).0)
                (append-Placed l.arena l.map (xs ++ ys) (i ∷ [])
                  (append-Placed l.arena l.map xs ys px (py.1)) (py.0, tt));
          found = λ q j h.
              let (m, e) = inv.found q j h in (Member-move j i xs ys m, (relink_same j).0 ∙ e);
        }
