-- ===== src/Pool/Keeping.antt =====
-- What every operation of a `BufferPool` keeps true (page/buffer_pool.rs).
use cypher_lite.Prelude.{
  ℕ, zero, suc, ◌≡◌, refl, sym, ap, subst, ◌∙◌, Bool, true, false, Option, none, some, List, [],
  ◌∷◌, ◌++◌, ◌==◌, ◌⊎◌, if◌then◌else◌, length, set, contains, arith, ==_iff, Bool-cases,
  Option-cases, inl, inr,
}
use cypher_lite.OrdMap
use cypher_lite.OrdMap.{OrdMap}
use cypher_lite.OrdMap.Laws.{get-insert, get-nil}
use cypher_lite.Pool.Links.{other, here}
use cypher_lite.Pool.Recency.{without}
use cypher_lite.Pool.Buffer.{BufferFrame, BufferPool, new_pool, frame_at, update_at}
use cypher_lite.Pool.Dropping.{IsFramed}
use cypher_lite.Pool.Frames.{get_elem?-below, get_elem?-set}

pub new_pool-IsFramed : (capacity : ℕ) → IsFramed (new_pool capacity)
unfolding new_pool frame_at
new_pool-IsFramed capacity = record {
  known = λ page idx h. absurd (let clash = sym (get-nil {V = ℕ} page) ∙ h in cc);
  placed = λ idx f h. absurd (let clash = h in cc);
}

frame_at-push :
    (pool : List BufferFrame) (x : BufferFrame) (i : ℕ) (f : BufferFrame)
    → frame_at pool i ≡ some f
    → frame_at (pool ++ (x ∷ [])) i ≡ some f
unfolding frame_at
frame_at-push [] x i f h = absurd (let clash = h in cc)
frame_at-push (y ∷ ys) x zero f h = h
frame_at-push (y ∷ ys) x (suc i) f h = frame_at-push ys x i f h

frame_at-end :
    (pool : List BufferFrame) (x : BufferFrame) → frame_at (pool ++ (x ∷ [])) (length pool) ≡ some x
unfolding frame_at
frame_at-end [] x = refl
frame_at-end (y ∷ ys) x = frame_at-end ys x

-- A frame is one from before, or the new one at the end.
frame_at-cases :
    (pool : List BufferFrame) (x : BufferFrame) (i : ℕ) (f : BufferFrame)
    → frame_at (pool ++ (x ∷ [])) i ≡ some f
    → (frame_at pool i ≡ some f) ⊎ ((i ≡ length pool) × (x ≡ f))
unfolding frame_at
frame_at-cases [] x zero f h = inr (refl, cc)
frame_at-cases [] x (suc i) f h = absurd (let clash = h in cc)
frame_at-cases (y ∷ ys) x zero f h = inl h
frame_at-cases (y ∷ ys) x (suc i) f h = elim (frame_at-cases ys x i f h) [
  | inl a ↦ inl a
  | inr (a, b) ↦ inr (ap suc a, b)
]

-- A page that is not cached, in a new frame at the end.
pub push-IsFramed :
    (p q : BufferPool) (x : BufferFrame)
    → OrdMap.get x.page_id p.frames ≡ none
    → q.frames ≡ OrdMap.insert x.page_id (length p.pool) p.frames
    → q.pool ≡ p.pool ++ (x ∷ [])
    → IsFramed p
    → IsFramed q
push-IsFramed p q x absent ef ep framed = record {
  known = λ page idx h.
      let lookup : OrdMap.get page q.frames
          ≡ (if x.page_id == page then some (length p.pool) else OrdMap.get page p.frames) =
        ap (OrdMap.get page) ef ∙ get-insert x.page_id page (length p.pool) p.frames in
      elim (Bool-cases (x.page_id == page)) [
        | inl t ↦
            let both : some (length p.pool) ≡ some idx = sym (lookup ∙ rw t refl) ∙ h in
            let e : length p.pool ≡ idx = cc in
            (
              x,
              ap (λ fs. frame_at fs idx) ep
                  ∙ subst (λ i. frame_at (p.pool ++ (x ∷ [])) i ≡ some x) e (frame_at-end p.pool x),
              (==_iff x.page_id page).0 t,
            )
        | inr f ↦
            let (g, at, named) = framed.known page idx (sym (lookup ∙ rw f refl) ∙ h) in
            (g, ap (λ fs. frame_at fs idx) ep ∙ frame_at-push p.pool x idx g at, named)
      ];
  placed = λ idx g h.
      elim (frame_at-cases p.pool x idx g (ap (λ fs. frame_at fs idx) (sym ep) ∙ h)) [
        | inl at ↦
            let before = framed.placed idx g at in
            ap (OrdMap.get g.page_id) ef
            ∙ get-insert x.page_id g.page_id (length p.pool) p.frames
            ∙ other g.page_id x.page_id (some (length p.pool)) (OrdMap.get g.page_id p.frames) (λ e.
              let clash = sym absent ∙ ap (λ n. OrdMap.get n p.frames) (sym e) ∙ before in cc)
            ∙ before
        | inr (e, same) ↦
            subst (λ y. OrdMap.get y.page_id q.frames ≡ some idx) same
              (ap (OrdMap.get x.page_id) ef
                ∙ get-insert x.page_id x.page_id (length p.pool) p.frames
                ∙ here x.page_id (some (length p.pool)) (OrdMap.get x.page_id p.frames)
                ∙ ap some (sym e))
      ];
}

update_at-none :
    (g : BufferFrame → BufferFrame) (idx : ℕ) (pool : List BufferFrame)
    → frame_at pool idx ≡ none
    → update_at g idx pool ≡ pool
unfolding update_at
update_at-none g idx pool h = rw (update_at, h) refl

-- The frames after a change of one that is there.
update_at-some :
    (g : BufferFrame → BufferFrame) (idx : ℕ) (pool : List BufferFrame) (y : BufferFrame) (j : ℕ)
    → frame_at pool idx ≡ some y
    → frame_at (update_at g idx pool) j ≡ (if idx == j then some (g y) else frame_at pool j)
update_at-some g idx pool y j h =
    let changed : update_at g idx pool ≡ set pool idx (g y) =
      unfold update_at in rw (update_at, h) refl in
    ap (λ fs. frame_at fs j) changed
    ∙ (unfold frame_at in
        let below = get_elem?-below pool idx y (unfold frame_at in h) in
        get_elem?-set pool idx (g y) j ∙ ground arith)

-- A change of one frame that keeps its page.
frame_at-update_at :
    (g : BufferFrame → BufferFrame) (idx : ℕ) (pool : List BufferFrame) (j : ℕ) (f : BufferFrame)
    → ((x : BufferFrame) → (g x).page_id ≡ x.page_id)
    → frame_at pool j ≡ some f
    → (h : BufferFrame) × (frame_at (update_at g idx pool) j ≡ some h) × (h.page_id ≡ f.page_id)
frame_at-update_at g idx pool j f keeps at = elim (Option-cases (frame_at pool idx)) [
  | inl h ↦ (f, ap (λ fs. frame_at fs j) (update_at-none g idx pool h) ∙ at, refl)
  | inr (y, h) ↦ elim (Bool-cases (idx == j)) [
    | inl t ↦
        let both : some y ≡ some f = sym h ∙ ap (frame_at pool) ((==_iff idx j).0 t) ∙ at in
        let one : y ≡ f = cc in
        (g y, update_at-some g idx pool y j h ∙ rw t refl, keeps y ∙ ap (λ x. x.page_id) one)
    | inr n ↦ (f, update_at-some g idx pool y j h ∙ rw n at, refl)
  ]
]

-- No frame comes to be.
update_at-frame_at :
    (g : BufferFrame → BufferFrame) (idx : ℕ) (pool : List BufferFrame) (j : ℕ) (h : BufferFrame)
    → ((x : BufferFrame) → (g x).page_id ≡ x.page_id)
    → frame_at (update_at g idx pool) j ≡ some h
    → (f : BufferFrame) × (frame_at pool j ≡ some f) × (h.page_id ≡ f.page_id)
update_at-frame_at g idx pool j h keeps at = elim (Option-cases (frame_at pool idx)) [
  | inl e ↦ (h, ap (λ fs. frame_at fs j) (sym (update_at-none g idx pool e)) ∙ at, refl)
  | inr (y, e) ↦ elim (Bool-cases (idx == j)) [
    | inl t ↦
        let both : some (g y) ≡ some h = sym (update_at-some g idx pool y j e ∙ rw t refl) ∙ at in
        let one : g y ≡ h = cc in
        (
          y,
          ap (frame_at pool) (sym ((==_iff idx j).0 t)) ∙ e,
          sym (ap (λ x. x.page_id) one) ∙ keeps y,
        )
    | inr n ↦ (h, sym (update_at-some g idx pool y j e ∙ rw n refl) ∙ at, refl)
  ]
]

pub update-IsFramed :
    (p q : BufferPool) (g : BufferFrame → BufferFrame) (idx : ℕ)
    → ((x : BufferFrame) → (g x).page_id ≡ x.page_id)
    → q.frames ≡ p.frames
    → q.pool ≡ update_at g idx p.pool
    → IsFramed p
    → IsFramed q
update-IsFramed p q g idx keeps ef ep framed = record {
  known = λ page j h.
      let (f, at, named) = framed.known page j (ap (OrdMap.get page) (sym ef) ∙ h) in
      let (x, at_x, same) = frame_at-update_at g idx p.pool j f keeps at in
      (x, ap (λ fs. frame_at fs j) ep ∙ at_x, same ∙ named);
  placed = λ j x h.
      let (f, at, same) =
        update_at-frame_at g idx p.pool j x keeps (ap (λ fs. frame_at fs j) (sym ep) ∙ h) in
      ap (OrdMap.get x.page_id) ef ∙ ap (λ n. OrdMap.get n p.frames) same ∙ framed.placed j f at;
}

-- Whether the map has an index.
abbrev pub is_some : Option ℕ → Bool
is_some none = false
is_some (some idx) = true

abbrev pub is_cached : BufferPool → ℕ → Bool
is_cached p page = is_some (OrdMap.get page p.frames)

pub contains-append :
    (ps : List ℕ) (page q : ℕ)
    → contains (ps ++ (page ∷ [])) q ≡ (if page == q then true else contains ps q)
contains-append [] page q = ground arith
contains-append (p ∷ ps) page q = ground (arith, contains-append ps page q)

pub contains-without :
    (ps : List ℕ) (page q : ℕ)
    → contains (without page ps) q ≡ (if page == q then false else contains ps q)
contains-without [] page q = ground arith
contains-without (p ∷ ps) page q = ground (arith, contains-without ps page q)
