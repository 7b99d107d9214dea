-- ===== src/Pool/Dropping.antt =====
-- Taking a page out of a `BufferPool` (page/buffer_pool.rs): every other page keeps its frame, also the one
-- whose frame moves.
use cypher_lite.Prelude.{
  ℕ, ◌-◌, ◌<◌, ◌≡◌, ◌≢◌, refl, sym, ap, ◌∙◌, true, false, none, some, ltb, ◌==◌, if◌then◌else◌,
  length, arith, ==_refl, ==_iff, Bool-cases, Option-cases, inl, inr,
}
use cypher_lite.OrdMap
use cypher_lite.OrdMap.{OrdMap}
use cypher_lite.OrdMap.Laws.{get-insert, get-remove}
use cypher_lite.Pool.Links.{here}
use cypher_lite.Pool.Buffer.{BufferFrame, BufferPool, frame_at, frame_of, swap_remove, drop_page}
use cypher_lite.Pool.Frames.{
  get_elem?-below, get_elem?-there, swap_remove-frames, fix_swapped_frame-some,
  fix_swapped_frame-none, shortened, drop_page-shortened, frame_of-none, frame_of-some,
}

-- The map and the frames agree.
pub record IsFramed (p : BufferPool) : Type 0 where
  pub known :
      (page idx : ℕ)
      → OrdMap.get page p.frames ≡ some idx
      → (f : BufferFrame) × (frame_at p.pool idx ≡ some f) × (f.page_id ≡ page)
  pub placed :
      (idx : ℕ) (f : BufferFrame)
      → frame_at p.pool idx ≡ some f
      → OrdMap.get f.page_id p.frames ≡ some idx

-- What is known of a page that the map has.
module _ (p : BufferPool) (framed : IsFramed p) (page idx : ℕ)
    (at : OrdMap.get page p.frames ≡ some idx) where
  -- The last frame, which moves.
  last_frame : (moved : BufferFrame) × (frame_at p.pool (length p.pool - 1) ≡ some moved)
  last_frame =
      let (f, here_it, _) = framed.known page idx at in
      let inside = get_elem?-below p.pool idx f (unfold frame_at in here_it) in
      let (moved, there) = get_elem?-there p.pool (length p.pool - 1) (omega arith) in
      (moved, unfold frame_at in there)

  idx_below : idx < length p.pool
  idx_below =
      let (f, here_it, _) = framed.known page idx at in
      get_elem?-below p.pool idx f (unfold frame_at in here_it)

  first_frame :
      ltb idx (length p.pool - 1) ≡ true
      → frame_at (swap_remove idx p.pool) idx ≡ some (last_frame.0)
  first_frame t =
      swap_remove-frames p.pool idx (last_frame.0) idx (last_frame.1)
      ∙ rw t (here idx (some (last_frame.0)) (frame_at p.pool idx))

  no_frame : ltb idx (length p.pool - 1) ≡ false → frame_at (swap_remove idx p.pool) idx ≡ none
  no_frame f = swap_remove-frames p.pool idx (last_frame.0) idx (last_frame.1) ∙ rw f refl

  -- The map after it.
  frames-drop_page :
      (q : ℕ)
      → OrdMap.get q ((drop_page p page idx).frames) ≡ (
          if ltb idx (length p.pool - 1)
          then (if last_frame.0.page_id == q
              then some idx
              else (if page == q then none else OrdMap.get q p.frames))
          else (if page == q then none else OrdMap.get q p.frames))
  frames-drop_page q = elim (Bool-cases (ltb idx (length p.pool - 1))) [
    | inl t ↦
        let (moved, last_is) = last_frame in
        rw t (
          ap (λ w. OrdMap.get q w.frames)
            (drop_page-shortened p page idx
              ∙ fix_swapped_frame-some (shortened p page idx) idx moved (first_frame t))
          ∙ get-insert moved.page_id q idx (OrdMap.remove page p.frames)
          ∙ ap (λ o. if moved.page_id == q then some idx else o) (get-remove page q p.frames))
    | inr f ↦ rw f (
        ap (λ w. OrdMap.get q w.frames)
          (drop_page-shortened p page idx
            ∙ fix_swapped_frame-none (shortened p page idx) idx (no_frame f))
        ∙ get-remove page q p.frames)
  ]

  pool-drop_page : (drop_page p page idx).pool ≡ swap_remove idx p.pool
  pool-drop_page = elim (Bool-cases (ltb idx (length p.pool - 1))) [
    | inl t ↦
        ap (λ w. w.pool)
          (drop_page-shortened p page idx
            ∙ fix_swapped_frame-some (shortened p page idx) idx (last_frame.0) (first_frame t))
    | inr f ↦
        ap (λ w. w.pool)
          (drop_page-shortened p page idx
            ∙ fix_swapped_frame-none (shortened p page idx) idx (no_frame f))
  ]

  -- The place of the last frame.
  abbrev end : ℕ
  end = length p.pool - 1

  moved_at : OrdMap.get (last_frame.0.page_id) p.frames ≡ some end
  moved_at = framed.placed end (last_frame.0) (last_frame.1)

  test_false : (a b : ℕ) → a ≢ b → (a == b) ≡ false
  test_false a b h = elim (Bool-cases (a == b)) [
    | inl t ↦ absurd (h ((==_iff a b).0 t))
    | inr f ↦ f
  ]

  same_place : (q j k : ℕ) → OrdMap.get q p.frames ≡ some j → OrdMap.get q p.frames ≡ some k → j ≡ k
  same_place q j k h g = let both = sym h ∙ g in cc

  -- A page that had no frame, and the page that is dropped, have none.
  gone :
      (q : ℕ)
      → (if page == q then none else OrdMap.get q p.frames) ≡ none
      → OrdMap.get q ((drop_page p page idx).frames) ≡ none
  gone q h = frames-drop_page q ∙ elim (Bool-cases (ltb idx end)) [
    | inl t ↦
        let differs : last_frame.0.page_id ≢ q = λ e. elim (Bool-cases (page == q)) [
          | inl s ↦
              let same : idx ≡ end =
                same_place page idx end at
                  (ap (λ x. OrdMap.get x p.frames) ((==_iff page q).0 s ∙ sym e) ∙ moved_at) in
              absurd (ground arith)
          | inr s ↦
              let clash : none ≡ some end =
                sym (sym (rw s refl) ∙ h) ∙ ap (λ x. OrdMap.get x p.frames) (sym e) ∙ moved_at in
              cc
        ] in
        rw (t, test_false (last_frame.0.page_id) q differs) h
    | inr f ↦ rw f h
  ]

  -- A page whose frame stands before the last, and is not the one dropped, stays.
  stays :
      (q k : ℕ)
      → OrdMap.get q p.frames ≡ some k
      → page ≢ q
      → k < end
      → OrdMap.get q ((drop_page p page idx).frames) ≡ some k
  stays q k h n lt = frames-drop_page q ∙ elim (Bool-cases (ltb idx end)) [
    | inl t ↦
        let differs : last_frame.0.page_id ≢ q = λ e.
          let same = same_place q k end h (ap (λ x. OrdMap.get x p.frames) (sym e) ∙ moved_at) in
          omega arith in
        rw (t, test_false (last_frame.0.page_id) q differs, test_false page q n) h
    | inr f ↦ rw (f, test_false page q n) h
  ]

  -- The page whose frame is the last takes the place.
  moves : idx < end → OrdMap.get (last_frame.0.page_id) ((drop_page p page idx).frames) ≡ some idx
  moves lt =
      let t : ltb idx end ≡ true = ground arith in
      frames-drop_page (last_frame.0.page_id) ∙ rw (t, ==_refl (last_frame.0.page_id)) refl

  frames_after :
      (j : ℕ)
      → frame_at ((drop_page p page idx).pool) j ≡ (
          if ltb j end then (if idx == j then some (last_frame.0) else frame_at p.pool j) else none)
  frames_after j =
      ap (λ fs. frame_at fs j) pool-drop_page
      ∙ swap_remove-frames p.pool idx (last_frame.0) j (last_frame.1)

  -- One frame has one page.
  same_page : (q k : ℕ) → OrdMap.get q p.frames ≡ some k → idx ≡ k → page ≡ q
  same_page q k h e =
      let (f, at_idx, page_f) = framed.known page idx at in
      let (g, at_k, page_g) = framed.known q k h in
      let both : some f ≡ some g = sym at_idx ∙ ap (frame_at p.pool) e ∙ at_k in
      let one : f ≡ g = cc in sym page_f ∙ ap (λ x. x.page_id) one ∙ page_g

  -- The page whose frame moves keeps it.
  moved_frame :
      (q k : ℕ)
      → page ≢ q
      → OrdMap.get q p.frames ≡ some k
      → k ≡ end
      → frame_of (drop_page p page idx) q ≡ frame_at p.pool k
  moved_frame q k n h e =
      let (g, at_k, page_g) = framed.known q k h in
      let (moved, last_is) = last_frame in
      let both : some g ≡ some moved = sym at_k ∙ ap (frame_at p.pool) e ∙ last_is in
      let one : g ≡ moved = cc in
      let apart : idx ≢ k = λ c. n (same_page q k h c) in
      let lt : idx < end = omega (arith, idx_below, e) in
      let before : ltb idx end ≡ true = ground arith in
      let named : moved.page_id ≡ q = ap (λ x. x.page_id) (sym one) ∙ page_g in
      let placed_at : OrdMap.get q ((drop_page p page idx).frames) ≡ some idx =
        ap (λ x. OrdMap.get x ((drop_page p page idx).frames)) (sym named) ∙ moves lt in
      frame_of-some (drop_page p page idx) q idx placed_at
      ∙ frames_after idx
      ∙ rw before (here idx (some moved) (frame_at p.pool idx))
      ∙ sym (ap (frame_at p.pool) e ∙ last_is)

  -- Another page keeps its frame.
  kept_frame :
      (q k : ℕ)
      → page ≢ q
      → OrdMap.get q p.frames ≡ some k
      → frame_of (drop_page p page idx) q ≡ frame_at p.pool k
  kept_frame q k n h =
      let (g, at_k, page_g) = framed.known q k h in
      let k_below = get_elem?-below p.pool k g (unfold frame_at in at_k) in
      let apart : idx ≢ k = λ e. n (same_page q k h e) in
      elim (Bool-cases (k == end)) [
        | inl t ↦ moved_frame q k n h ((==_iff k end).0 t)
        | inr f ↦
            let lt : k < end = ground arith in
            let before : ltb k end ≡ true = ground arith in
            frame_of-some (drop_page p page idx) q k (stays q k h n lt)
            ∙ frames_after k
            ∙ rw (before, test_false idx k apart) refl
      ]

  -- Every page but the one that is dropped has the frame that it had.
  pub frame_of-drop_page :
      (q : ℕ) → frame_of (drop_page p page idx) q ≡ (if page == q then none else frame_of p q)
  frame_of-drop_page q = elim (Bool-cases (page == q)) [
    | inl t ↦ rw t (frame_of-none (drop_page p page idx) q (gone q (rw t refl)))
    | inr f ↦ rw f (elim (Option-cases (OrdMap.get q p.frames)) [
      | inl h ↦ frame_of-none (drop_page p page idx) q (gone q (rw f h)) ∙ sym (frame_of-none p q h)
      | inr (k, h) ↦
          kept_frame q k (λ e. let clash = sym ((==_iff page q).1 e) ∙ f in cc) h
          ∙ sym (frame_of-some p q k h)
    ])
  ]

  known_after :
      (q j : ℕ)
      → OrdMap.get q ((drop_page p page idx).frames) ≡ some j
      → (f : BufferFrame) × (frame_at ((drop_page p page idx).pool) j ≡ some f) × (f.page_id ≡ q)
  known_after q j h = elim (Bool-cases (page == q)) [
    | inl t ↦ absurd (let clash : none ≡ some j = sym (gone q (rw t refl)) ∙ h in cc)
    | inr f ↦ elim (Option-cases (OrdMap.get q p.frames)) [
      | inl e ↦ absurd (let clash : none ≡ some j = sym (gone q (rw f e)) ∙ h in cc)
      | inr (k, e) ↦
          let (g, at_k, page_g) = framed.known q k e in
          let n : page ≢ q = λ c. let clash = sym ((==_iff page q).1 c) ∙ f in cc in
          (g, sym (frame_of-some (drop_page p page idx) q j h) ∙ kept_frame q k n e ∙ at_k, page_g)
    ]
  ]

  placed_after :
      (j : ℕ) (g : BufferFrame)
      → frame_at ((drop_page p page idx).pool) j ≡ some g
      → OrdMap.get g.page_id ((drop_page p page idx).frames) ≡ some j
  placed_after j g h = elim (Bool-cases (ltb j end)) [
    | inr f ↦ absurd (let clash : none ≡ some g = sym (frames_after j ∙ rw f refl) ∙ h in cc)
    | inl t ↦ elim (Bool-cases (idx == j)) [
      | inl s ↦
          let both : some (last_frame.0) ≡ some g = sym (frames_after j ∙ rw (t, s) refl) ∙ h in
          let one : last_frame.0 ≡ g = cc in
          let e : idx ≡ j = (==_iff idx j).0 s in
          ap (λ x. OrdMap.get x.page_id ((drop_page p page idx).frames)) (sym one)
          ∙ moves (ground arith)
          ∙ ap some e
      | inr s ↦
          let here_it : frame_at p.pool j ≡ some g = sym (frames_after j ∙ rw (t, s) refl) ∙ h in
          let at_j = framed.placed j g here_it in
          let n : page ≢ g.page_id = λ c.
            let same : idx ≡ j =
              same_place page idx j at (ap (λ x. OrdMap.get x p.frames) c ∙ at_j) in
            let clash = sym ((==_iff idx j).1 same) ∙ s in cc in
          stays g.page_id j at_j n (ground arith)
    ]
  ]

  pub drop_page-IsFramed : IsFramed (drop_page p page idx)
  drop_page-IsFramed = record { known = known_after; placed = placed_after }
