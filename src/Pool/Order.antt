-- ===== src/Pool/Order.antt =====
-- The order of the pages of an `LruList` after each of its operations (page/buffer_pool.rs).
use cypher_lite.Prelude.{
  ℕ, ◌≡◌, refl, sym, ap, subst, ◌∙◌, true, false, none, some, List, [], ◌∷◌, ◌++◌, arith, map,
  contains, if◌then◌else◌, ==_refl, inl, inr, Option-cases,
}
use cypher_lite.OrdMap
use cypher_lite.OrdMap.{OrdMap}
use cypher_lite.Pool.Lru.{LruNode, LruList, tail, remove, touch, unlink, link_before}
use cypher_lite.Pool.Segments.{Member, Member-split}
use cypher_lite.Pool.Fields.{page_of}
use cypher_lite.Pool.Recency.{Placed, IsLru, Lists, pages, without}
use cypher_lite.Pool.Removal.{
  without-pages, remove-IsLru, touch-IsLru, relink_same, unlink_same, here_page,
}
use cypher_lite.Pool.Places.{Misses-none, without-Misses, Misses, other_test, map-pages, map-append}

contains-Member : (f : ℕ → ℕ) (i : ℕ) (is : List ℕ) → Member i is → contains (map f is) (f i) ≡ true
contains-Member f i [] m = elim m [ ]
contains-Member f i (j ∷ is) (inl e) = rw (e, ==_refl (f i)) refl
contains-Member f i (j ∷ is) (inr m) = rw (contains-Member f i is m) (ground arith)

contains-none :
    (arena : List LruNode) (m : OrdMap ℕ) (page : ℕ) (is : List ℕ)
    → Placed arena m is
    → OrdMap.get page m ≡ none
    → contains (map (page_of arena) is) page ≡ false
contains-none arena m page [] h k = refl
contains-none arena m page (i ∷ is) h k =
    rw
      (
        other_test arena m page i (h.0) (λ e. let clash = sym k ∙ e in cc),
        contains-none arena m page is (h.1) k,
      )
      refl

remove-none : (l : LruList) (page : ℕ) → OrdMap.get page l.map ≡ none → remove l page ≡ l
unfolding remove
remove-none l page h = rw (remove, h) refl

remove-some :
    (l : LruList) (page i : ℕ)
    → OrdMap.get page l.map ≡ some i
    → remove l page ≡ record {
      arena = unlink i l.arena;
      map = OrdMap.remove page l.map;
      free_slots = i ∷ l.free_slots;
    }
unfolding remove
remove-some l page i h = rw (remove, h) refl

touch-none : (l : LruList) (page : ℕ) → OrdMap.get page l.map ≡ none → touch l page ≡ l
unfolding touch
touch-none l page h = rw (touch, h) refl

touch-some :
    (l : LruList) (page i : ℕ)
    → OrdMap.get page l.map ≡ some i
    → touch l page ≡ record (l) { arena = link_before tail i (unlink i l.arena) }
unfolding touch
touch-some l page i h = rw (touch, h) refl

-- What holds of a list that has a page, and of one that has not.
module _ (l : LruList) (ps : List ℕ) (page : ℕ) (listed : Lists l ps) where
  absent-without : OrdMap.get page l.map ≡ none → without page ps ≡ ps
  absent-without h =
      let (is, inv, e) = listed in
      subst (λ qs. without page qs ≡ qs) e
        (without-Misses l.arena l.map page is inv.placed
          (subst (λ o. Misses o is) (sym h) (Misses-none is)))

  absent-contains : OrdMap.get page l.map ≡ none → contains ps page ≡ false
  absent-contains h =
      let (is, inv, e) = listed in
      subst (λ qs. contains qs page ≡ false) e (contains-none l.arena l.map page is inv.placed h)

  -- A page that the map has, with its node and those around it.
  record Present : Type 0 where
    i : ℕ
    xs : List ℕ
    ys : List ℕ
    here : OrdMap.get page l.map ≡ some i
    inv : IsLru l (xs ++ (i ∷ ys))
    listed_as : pages l (xs ++ (i ∷ ys)) ≡ ps
    has : contains ps page ≡ true

  present : (i : ℕ) → OrdMap.get page l.map ≡ some i → Present
  present i h =
      let (is, inv, e) = listed in
      let (m, at) = inv.found page i h in
      let (xs, ys, split) = Member-split i is m in
      record {
        i = i;
        xs = xs;
        ys = ys;
        here = h;
        inv = subst (λ z. IsLru l z) split inv;
        listed_as = ap (pages l) (sym split) ∙ e;
        has =
            subst (λ qs. contains qs page ≡ true) e
              (subst (λ p. contains (pages l is) p ≡ true) at
                (contains-Member (page_of l.arena) i is m));
      }

  pub present-contains : (i : ℕ) → OrdMap.get page l.map ≡ some i → contains ps page ≡ true
  present-contains i h = (present i h).has

  -- Removing a page leaves the others in their order.
  pub remove-Lists : Lists (remove l page) (without page ps)
  remove-Lists = elim (Option-cases (OrdMap.get page l.map)) [
    | inl h ↦
        subst (λ m. Lists m (without page ps)) (sym (remove-none l page h))
          (subst (Lists l) (sym (absent-without h)) listed)
    | inr (i, h) ↦
        let p = present i h in
        subst (λ m. Lists m (without page ps)) (sym (remove-some l page p.i p.here))
          (
            p.xs ++ p.ys,
            remove-IsLru l p.xs p.i p.ys p.inv page p.here,
            map-pages l.arena (unlink p.i l.arena) (p.xs ++ p.ys)
                  (λ j. (unlink_same l p.xs p.i p.ys p.inv j).0)
                ∙ sym (without-pages l p.xs p.i p.ys p.inv page p.here)
                ∙ ap (without page) p.listed_as,
          )
  ]

  touched :
      (p : Present)
      → Lists
          (record (l) { arena = link_before tail p.i (unlink p.i l.arena) })
          (without page ps ++ (page ∷ []))
  touched p = (
    (p.xs ++ p.ys) ++ (p.i ∷ []),
    touch-IsLru l p.xs p.i p.ys p.inv page p.here,
    map-pages l.arena (link_before tail p.i (unlink p.i l.arena)) ((p.xs ++ p.ys) ++ (p.i ∷ []))
          (λ j. (relink_same l p.xs p.i p.ys p.inv page p.here j).0)
        ∙ map-append (page_of l.arena) (p.xs ++ p.ys) (p.i ∷ [])
        ∙ ap (λ qs. qs ++ (page_of l.arena p.i ∷ []))
            (sym (without-pages l p.xs p.i p.ys p.inv page p.here) ∙ ap (without page) p.listed_as)
        ∙ ap (λ q. without page ps ++ (q ∷ [])) (here_page l p.xs p.i p.ys p.inv page p.here),
  )

  -- Touching a page moves it to the end, if it is there.
  pub touch-Lists :
      Lists (touch l page) (if contains ps page then without page ps ++ (page ∷ []) else ps)
  touch-Lists = elim (Option-cases (OrdMap.get page l.map)) [
    | inl h ↦ rw (absent-contains h) (subst (λ m. Lists m ps) (sym (touch-none l page h)) listed)
    | inr (i, h) ↦
        let p = present i h in
        rw (p.has) (
          subst (λ m. Lists m (without page ps ++ (page ∷ []))) (sym (touch-some l page p.i p.here))
            (touched p))
  ]
