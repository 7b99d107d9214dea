-- ===== src/Pool/Reaching.antt =====
-- A `BufferPool` over any sequence of its operations (page/buffer_pool.rs).
use cypher_lite.Prelude.{
  ℕ, ◌≡◌, refl, sym, ap, subst, ◌∙◌, Bool, true, false, Option, none, some, List, [], ◌∷◌, ◌++◌,
  ◌==◌, if◌then◌else◌, length, contains, ==_iff, Bool-cases, Option-cases, inl, inr,
}
use cypher_lite.OrdMap
use cypher_lite.OrdMap.Laws.{get-insert, get-nil}
use cypher_lite.File.{Bytes}
use cypher_lite.Pool.Lru
use cypher_lite.Pool.Recency.{without}
use cypher_lite.Pool.Using.{Used, starts, pushes, removes, touches}
use cypher_lite.Pool.Buffer.{
  BufferFrame, BufferPool, new_pool, frame_of, update_at, update_frame, insert, drop_page,
}
use cypher_lite.Pool.Dropping.{IsFramed, frame_of-drop_page, drop_page-IsFramed}
use cypher_lite.Pool.Frames.{frame_of-none, frame_of-some, drop_page-lru}
use cypher_lite.Pool.Keeping.{
  new_pool-IsFramed, push-IsFramed, update-IsFramed, is_cached, is_some, contains-append,
  contains-without,
}

-- The page comes to the end, if it is there.
abbrev pub touched : ℕ → List ℕ → List ℕ
touched page ps = if contains ps page then without page ps ++ (page ∷ []) else ps

-- The page is there, and last.
abbrev pub used_last : ℕ → List ℕ → List ℕ
used_last page ps = if contains ps page then without page ps ++ (page ∷ []) else ps ++ (page ∷ [])

-- The map and the frames agree, the list has the pages `ps` in order of use, and these are the pages that
-- the map has.
pub record IsPool (p : BufferPool) (ps : List ℕ) : Type 0 where
  pub framed : IsFramed p
  pub used : Used p.lru ps
  pub cached : (q : ℕ) → contains ps q ≡ is_cached p q

is_cached-some :
    (p : BufferPool) (q idx : ℕ) → OrdMap.get q p.frames ≡ some idx → is_cached p q ≡ true
is_cached-some p q idx h = ap is_some h

is_cached-none : (p : BufferPool) (q : ℕ) → OrdMap.get q p.frames ≡ none → is_cached p q ≡ false
is_cached-none p q h = ap is_some h

pub new_pool-IsPool : (capacity : ℕ) → IsPool (new_pool capacity) []
new_pool-IsPool capacity = record {
  framed = new_pool-IsFramed capacity;
  used = unfold new_pool in starts;
  cached = λ q. sym (is_cached-none (new_pool capacity) q (unfold new_pool in get-nil {V = ℕ} q));
}

-- A change of one frame, with or without a touch.
pub change-IsPool :
    (p q : BufferPool) (g : BufferFrame → BufferFrame) (idx : ℕ) (ps qs : List ℕ)
    → ((x : BufferFrame) → (g x).page_id ≡ x.page_id)
    → q.frames ≡ p.frames
    → q.pool ≡ update_at g idx p.pool
    → Used q.lru qs
    → ((r : ℕ) → contains qs r ≡ contains ps r)
    → IsPool p ps
    → IsPool q qs
change-IsPool p q g idx ps qs keeps ef ep used same inv = record {
  framed = update-IsFramed p q g idx keeps ef ep inv.framed;
  used = used;
  cached = λ r. same r ∙ inv.cached r ∙ ap (λ fs. is_some (OrdMap.get r fs)) (sym ef);
}

contains-touched : (ps : List ℕ) (page r : ℕ) → contains (touched page ps) r ≡ contains ps r
contains-touched ps page r = elim (Bool-cases (contains ps page)) [
  | inr f ↦ rw f refl
  | inl t ↦ rw t (
      contains-append (without page ps) page r
      ∙ ap (λ b. if page == r then true else b) (contains-without ps page r)
      ∙ elim (Bool-cases (page == r)) [
        | inl e ↦ rw e (sym (subst (λ x. contains ps x ≡ true) ((==_iff page r).0 e) t))
        | inr n ↦ rw n refl
      ])
]

pub without-absent : (ps : List ℕ) (page : ℕ) → contains ps page ≡ false → without page ps ≡ ps
without-absent [] page h = refl
without-absent (p ∷ ps) page h = elim (Bool-cases (p == page)) [
  | inl t ↦ absurd (let clash : true ≡ false = sym (rw t refl) ∙ h in cc)
  | inr f ↦ rw f (ap (λ r. p ∷ r) (without-absent ps page (sym (rw f refl) ∙ h)))
]

is_some-if :
    (b : Bool) (n : ℕ) (o : Option ℕ)
    → is_some (if b then some n else o) ≡ (if b then true else is_some o)
is_some-if true n o = refl
is_some-if false n o = refl

abbrev has_frame : Option BufferFrame → Bool
has_frame none = false
has_frame (some f) = true

has_frame-if :
    (b : Bool) (o : Option BufferFrame)
    → has_frame (if b then none else o) ≡ (if b then false else has_frame o)
has_frame-if true o = refl
has_frame-if false o = refl

is_cached-frame_of :
    (p : BufferPool) (q : ℕ) → IsFramed p → is_cached p q ≡ has_frame (frame_of p q)
is_cached-frame_of p q framed = elim (Option-cases (OrdMap.get q p.frames)) [
  | inl h ↦ ap is_some h ∙ sym (ap has_frame (frame_of-none p q h))
  | inr (k, h) ↦
      let (f, at, _) = framed.known q k h in
      ap is_some h ∙ sym (ap has_frame (frame_of-some p q k h ∙ at))
]

insert-some :
    (p : BufferPool) (page idx : ℕ) (c : Bytes)
    → OrdMap.get page p.frames ≡ some idx
    → insert p page c ≡ record (p) {
      pool = update_at (λ f. record f { contents = c }) idx p.pool;
      lru = Lru.touch p.lru page;
    }
unfolding insert
insert-some p page idx c h = rw (insert, h) refl

insert-none :
    (p : BufferPool) (page : ℕ) (c : Bytes)
    → OrdMap.get page p.frames ≡ none
    → insert p page c ≡ record (p) {
      frames = OrdMap.insert page (length p.pool) p.frames;
      pool = p.pool ++ (record { page_id = page; contents = c; dirty = false; pin_count = 0 } ∷ []);
      lru = Lru.push_back p.lru page;
    }
unfolding insert
insert-none p page c h = rw (insert, h) refl

update_frame-some :
    (g : BufferFrame → BufferFrame) (p : BufferPool) (page idx : ℕ)
    → OrdMap.get page p.frames ≡ some idx
    → update_frame g p page ≡ record (p) { pool = update_at g idx p.pool }
unfolding update_frame
update_frame-some g p page idx h = rw (update_frame, h) refl

update_frame-none :
    (g : BufferFrame → BufferFrame) (p : BufferPool) (page : ℕ)
    → OrdMap.get page p.frames ≡ none
    → update_frame g p page ≡ p
unfolding update_frame
update_frame-none g p page h = rw (update_frame, h) refl

module _ (p : BufferPool) (ps : List ℕ) (page : ℕ) (inv : IsPool p ps) where
  cached_so : (idx : ℕ) → OrdMap.get page p.frames ≡ some idx → contains ps page ≡ true
  cached_so idx h = inv.cached page ∙ is_cached-some p page idx h

  pub absent_so : OrdMap.get page p.frames ≡ none → contains ps page ≡ false
  absent_so h = inv.cached page ∙ is_cached-none p page h

  pub insert-IsPool : (c : Bytes) → IsPool (insert p page c) (used_last page ps)
  insert-IsPool c = elim (Option-cases (OrdMap.get page p.frames)) [
    | inr (idx, h) ↦
        let q = insert p page c in
        let e = insert-some p page idx c h in
        let moved : touched page ps ≡ used_last page ps = rw (cached_so idx h) refl in
        subst (IsPool q) moved (
          change-IsPool p q (λ f. record f { contents = c }) idx ps (touched page ps) (λ x. refl)
            (ap (λ w. w.frames) e) (ap (λ w. w.pool) e)
            (subst (λ l. Used l (touched page ps)) (sym (ap (λ w. w.lru) e))
              (touches p.lru ps page inv.used))
            (contains-touched ps page) inv)
    | inl h ↦
        let q = insert p page c in
        let e = insert-none p page c h in
        let last : ps ++ (page ∷ []) ≡ used_last page ps = rw (absent_so h) refl in
        subst (IsPool q) last (record {
          framed =
              push-IsFramed p q
                (record { page_id = page; contents = c; dirty = false; pin_count = 0 }) h
                (ap (λ w. w.frames) e) (ap (λ w. w.pool) e) inv.framed;
          used =
              subst (λ l. Used l (ps ++ (page ∷ []))) (sym (ap (λ w. w.lru) e))
                (pushes p.lru ps page inv.used (absent_so h));
          cached = λ r.
              contains-append ps page r
              ∙ ap (λ b. if page == r then true else b) (inv.cached r)
              ∙ sym (
                  ap is_some
                    (ap (λ w. OrdMap.get r w.frames) e ∙ get-insert page r (length p.pool) p.frames)
                  ∙ is_some-if (page == r) (length p.pool) (OrdMap.get r p.frames));
        })
  ]

  pub update_frame-IsPool :
      (g : BufferFrame → BufferFrame)
      → ((x : BufferFrame) → (g x).page_id ≡ x.page_id)
      → IsPool (update_frame g p page) ps
  update_frame-IsPool g keeps = elim (Option-cases (OrdMap.get page p.frames)) [
    | inl h ↦ subst (λ q. IsPool q ps) (sym (update_frame-none g p page h)) inv
    | inr (idx, h) ↦
        let q = update_frame g p page in
        let e = update_frame-some g p page idx h in
        change-IsPool p q g idx ps ps keeps (ap (λ w. w.frames) e) (ap (λ w. w.pool) e)
          (subst (λ l. Used l ps) (sym (ap (λ w. w.lru) e)) inv.used) (λ r. refl) inv
  ]

  pub touch_page-IsPool : IsPool (record (p) { lru = Lru.touch p.lru page }) (touched page ps)
  touch_page-IsPool = record {
    framed = record { known = inv.framed.known; placed = inv.framed.placed };
    used = touches p.lru ps page inv.used;
    cached = λ r. contains-touched ps page r ∙ inv.cached r;
  }

  pub drop_page-IsPool :
      (idx : ℕ)
      → OrdMap.get page p.frames ≡ some idx
      → IsPool (drop_page p page idx) (without page ps)
  drop_page-IsPool idx h = record {
    framed = drop_page-IsFramed p inv.framed page idx h;
    used =
        subst (λ l. Used l (without page ps)) (sym (drop_page-lru p page idx))
          (removes p.lru ps page inv.used);
    cached = λ r.
        contains-without ps page r
        ∙ ap (λ b. if page == r then false else b) (inv.cached r)
        ∙ ap (λ b. if page == r then false else b) (is_cached-frame_of p r inv.framed)
        ∙ sym (
            is_cached-frame_of (drop_page p page idx) r (drop_page-IsFramed p inv.framed page idx h)
            ∙ ap has_frame (frame_of-drop_page p inv.framed page idx h r)
            ∙ has_frame-if (page == r) (frame_of p r));
  }
