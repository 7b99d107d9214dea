-- ===== src/Pool/Eviction.antt =====
-- What `evict` of a `BufferPool` takes out (page/buffer_pool.rs).
use cypher_lite.Prelude.{
  ℕ, ◌≡◌, refl, sym, ap, subst, ◌∙◌, Bool, true, false, Option, none, some, List, [], ◌∷◌, ◌++◌,
  ◌==◌, if◌then◌else◌, length, ==_iff, Bool-cases, Option-cases, inl, inr,
}
use cypher_lite.Core.{out_of_space}
use cypher_lite.Core.Result.{Result, ok, err}
use cypher_lite.File.{Bytes}
use cypher_lite.OrdMap
use cypher_lite.Pool.Using.{Used, iter_lru-Used}
use cypher_lite.Pool.Buffer.{
  BufferFrame, BufferPool, frame_at, frame_of, can_go, find_page, evict_pid, evicted, evict,
  drop_page,
}
use cypher_lite.Pool.Dropping.{IsFramed, frame_of-drop_page, drop_page-IsFramed}
use cypher_lite.Pool.Frames.{frame_of-none, frame_of-some}

-- None of the pages can go.
abbrev pub AllStay : BufferPool → List ℕ → Type 0
AllStay p [] = Unit
AllStay p (page ∷ ps) = (can_go p page ≡ false) × AllStay p ps

-- The outcomes of `evict` on a pool with the pages `ps` in order of use: there is nothing to evict; every
-- page is pinned; or the first page that is not pinned goes, and the other pages keep their frames.
pub data Evicts (p : BufferPool) (ps : List ℕ)
    : Result (Option (ℕ × Bytes × Bool)) × BufferPool → Type 0 where
  nothing : AllStay p ps → length p.pool ≡ 0 → Evicts p ps (ok none, p)
  all_pinned : AllStay p ps → (length p.pool == 0) ≡ false → Evicts p ps (err out_of_space, p)
  goes :
      (before : List ℕ) (page : ℕ) (behind : List ℕ) (f : BufferFrame) (after : BufferPool)
      → ps ≡ before ++ (page ∷ behind)
      → AllStay p before
      → frame_of p page ≡ some f
      → f.pin_count ≡ 0
      → ((q : ℕ) → frame_of after q ≡ (if page == q then none else frame_of p q))
      → IsFramed after
      → Evicts p ps (ok (some (page, f.contents, f.dirty)), after)

find_page-none : (p : BufferPool) (ps : List ℕ) → find_page (can_go p) ps ≡ none → AllStay p ps
find_page-none p [] h = tt
find_page-none p (page ∷ ps) h = elim (Bool-cases (can_go p page)) [
  | inl t ↦ absurd (let clash : some page ≡ none = sym (rw t refl) ∙ h in cc)
  | inr f ↦ (f, find_page-none p ps (sym (rw f refl) ∙ h))
]

pub find_page-some :
    (p : BufferPool) (ps : List ℕ) (page : ℕ)
    → find_page (can_go p) ps ≡ some page
    → (before : List ℕ) × (behind : List ℕ) × (ps ≡ before ++ (page ∷ behind))
      × AllStay p before
      × (can_go p page ≡ true)
find_page-some p [] page h = absurd (let clash = h in cc)
find_page-some p (q ∷ ps) page h = elim (Bool-cases (can_go p q)) [
  | inl t ↦
      let first : some q ≡ some page = sym (rw t refl) ∙ h in
      let e : q ≡ page = cc in ([], ps, ap (λ x. x ∷ ps) e, tt, subst (λ x. can_go p x ≡ true) e t)
  | inr f ↦
      let (before, behind, e, stay, go) = find_page-some p ps page (sym (rw f refl) ∙ h) in
      (q ∷ before, behind, ap (λ r. q ∷ r) e, (f, stay), go)
]

-- A page that can go has a frame with no pins.
pub can_go-frame :
    (p : BufferPool) (page : ℕ)
    → can_go p page ≡ true
    → (f : BufferFrame) × (frame_of p page ≡ some f) × (f.pin_count ≡ 0)
can_go-frame p page h = elim (Option-cases (frame_of p page)) [
  | inl e ↦
      absurd (let stays : can_go p page ≡ false = rw e refl in let clash = sym stays ∙ h in cc)
  | inr (f, e) ↦
      let test : can_go p page ≡ (f.pin_count == 0) = rw e refl in
      (f, e, (==_iff f.pin_count 0).0 (sym test ∙ h))
]

pub evict-none :
    (p : BufferPool)
    → evict_pid p ≡ none
    → evict p ≡ (if length p.pool == 0 then ok none else err out_of_space, p)
unfolding evict
evict-none p h = rw (evict, h) refl

evict-some :
    (p : BufferPool) (page : ℕ)
    → evict_pid p ≡ some page
    → evict p ≡ evicted p page (OrdMap.get page p.frames)
unfolding evict
evict-some p page h = rw (evict, h) refl

evicted-some :
    (p : BufferPool) (page idx : ℕ) (f : BufferFrame)
    → OrdMap.get page p.frames ≡ some idx
    → frame_at p.pool idx ≡ some f
    → evicted p page (OrdMap.get page p.frames)
      ≡ (ok (some (f.page_id, f.contents, f.dirty)), drop_page p page idx)
evicted-some p page idx f h k = rw (h, evicted, k) refl

pub evict_pid-Used :
    (p : BufferPool) (ps : List ℕ) → Used p.lru ps → evict_pid p ≡ find_page (can_go p) ps
unfolding evict_pid
evict_pid-Used p ps used = ap (find_page (can_go p)) (iter_lru-Used p.lru ps used)

pub evict-page :
    (p : BufferPool) (page idx : ℕ) (f : BufferFrame)
    → IsFramed p
    → evict_pid p ≡ some page
    → OrdMap.get page p.frames ≡ some idx
    → frame_of p page ≡ some f
    → evict p ≡ (ok (some (page, f.contents, f.dirty)), drop_page p page idx)
evict-page p page idx f framed chosen at frame =
    let here_it : frame_at p.pool idx ≡ some f = sym (frame_of-some p page idx at) ∙ frame in
    let (g, at_idx, page_g) = framed.known page idx at in
    let both : some g ≡ some f = sym at_idx ∙ here_it in
    let one : g ≡ f = cc in
    let named : f.page_id ≡ page = ap (λ x. x.page_id) (sym one) ∙ page_g in
    evict-some p page chosen
    ∙ evicted-some p page idx f at here_it
    ∙ ap (λ q. (ok (some (q, f.contents, f.dirty)), drop_page p page idx)) named

-- The page that goes.
leaves :
    (p : BufferPool) (ps : List ℕ) (page idx : ℕ) (f : BufferFrame)
    → IsFramed p
    → find_page (can_go p) ps ≡ some page
    → evict_pid p ≡ some page
    → OrdMap.get page p.frames ≡ some idx
    → frame_of p page ≡ some f
    → f.pin_count ≡ 0
    → Evicts p ps (evict p)
leaves p ps page idx f framed first chosen at frame pins =
    let (before, behind, split, stay, _) = find_page-some p ps page first in
    subst (Evicts p ps) (sym (evict-page p page idx f framed chosen at frame)) (
      goes before page behind f (drop_page p page idx) split stay frame pins
        (frame_of-drop_page p framed page idx at) (drop_page-IsFramed p framed page idx at))

-- Whatever was done to the order of use: on a pool whose map and frames agree, `evict` does not panic. It
-- reports that there is nothing to evict or no space, and changes nothing, if no page can go; otherwise
-- the least recently used page that is not pinned goes, with its contents and its dirty flag, and every
-- other page keeps its frame.
pub evict-Evicts :
    (p : BufferPool) (ps : List ℕ) → IsFramed p → Used p.lru ps → Evicts p ps (evict p)
evict-Evicts p ps framed used = elim (Option-cases (evict_pid p)) [
  | inl h ↦
      let stay = find_page-none p ps (sym (evict_pid-Used p ps used) ∙ h) in
      elim (Bool-cases (length p.pool == 0)) [
        | inl t ↦
            subst (Evicts p ps) (sym (evict-none p h ∙ rw t refl))
              (nothing stay ((==_iff (length p.pool) 0).0 t))
        | inr f ↦ subst (Evicts p ps) (sym (evict-none p h ∙ rw f refl)) (all_pinned stay f)
      ]
  | inr (page, h) ↦
      let first = sym (evict_pid-Used p ps used) ∙ h in
      let (_, _, _, _, go) = find_page-some p ps page first in
      let (f, frame, pins) = can_go-frame p page go in
      elim (Option-cases (OrdMap.get page p.frames)) [
        | inl e ↦ absurd (let clash : none ≡ some f = sym (frame_of-none p page e) ∙ frame in cc)
        | inr (idx, e) ↦ leaves p ps page idx f framed first h e frame pins
      ]
]
