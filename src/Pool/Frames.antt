-- ===== src/Pool/Frames.antt =====
-- Reads of the frames of a `BufferPool` after the changes of one (page/buffer_pool.rs).
use cypher_lite.Prelude.{
  ℕ, zero, suc, ◌-◌, ◌<◌, ◌≤◌, ◌≡◌, refl, ap, ◌∙◌, Option, none, some, List, [], ◌∷◌, ltb, ◌==◌,
  if◌then◌else◌, length, get_elem?, set, take, arith, Option-cases, inl, inr,
}
use cypher_lite.OrdMap
use cypher_lite.OrdMap.{OrdMap}
use cypher_lite.Pool.Lru
use cypher_lite.Pool.Buffer.{
  BufferFrame, BufferPool, frame_at, frame_of, swap_remove, fix_swapped_frame, drop_page,
}

abbrev pub frame_in : List BufferFrame → ℕ → Option BufferFrame
frame_in = get_elem?

pub get_elem?-below :
    (pool : List BufferFrame) (i : ℕ) (f : BufferFrame)
    → get_elem? pool i ≡ some f
    → i < length pool
get_elem?-below [] i f h = absurd (let clash = h in cc)
get_elem?-below (x ∷ xs) zero f h = omega arith
get_elem?-below (x ∷ xs) (suc i) f h = omega (arith, get_elem?-below xs i f h)

pub get_elem?-there :
    (pool : List BufferFrame) (i : ℕ)
    → i < length pool
    → (f : BufferFrame) × (get_elem? pool i ≡ some f)
get_elem?-there [] i h = absurd (omega arith)
get_elem?-there (x ∷ xs) zero h = (x, refl)
get_elem?-there (x ∷ xs) (suc i) h = get_elem?-there xs i (omega arith)

pub get_elem?-take :
    (pool : List BufferFrame) (n i : ℕ)
    → get_elem? (take n pool) i ≡ (if ltb i n then get_elem? pool i else none)
get_elem?-take pool zero i = ground arith
get_elem?-take [] (suc n) i = ground arith
get_elem?-take (x ∷ xs) (suc n) zero = ground arith
get_elem?-take (x ∷ xs) (suc n) (suc i) = ground (arith, get_elem?-take xs n i)

pub get_elem?-set :
    (pool : List BufferFrame) (i : ℕ) (f : BufferFrame) (j : ℕ)
    → get_elem? (set pool i f) j
      ≡ (if i == j then (if ltb j (length pool) then some f else none) else get_elem? pool j)
get_elem?-set [] i f j = ground arith
get_elem?-set (x ∷ xs) zero f zero = ground arith
get_elem?-set (x ∷ xs) zero f (suc j) = ground arith
get_elem?-set (x ∷ xs) (suc i) f zero = ground arith
get_elem?-set (x ∷ xs) (suc i) f (suc j) = ground (arith, get_elem?-set xs i f j)

pub length-take_below :
    (pool : List BufferFrame) (n : ℕ) → n ≤ length pool → length (take n pool) ≡ n
length-take_below pool zero h = refl
length-take_below [] (suc n) h = absurd (omega arith)
length-take_below (x ∷ xs) (suc n) h = ap suc (length-take_below xs n (omega arith))

-- A removal, with the last frame at hand.
pub swap_remove-some :
    (pool : List BufferFrame) (idx : ℕ) (moved : BufferFrame)
    → frame_at pool (length pool - 1) ≡ some moved
    → swap_remove idx pool ≡ set (take (length pool - 1) pool) idx moved
unfolding swap_remove
swap_remove-some pool idx moved h = rw (swap_remove, h) refl

-- The frames after it.
pub swap_remove-frames :
    (pool : List BufferFrame) (idx : ℕ) (moved : BufferFrame) (j : ℕ)
    → frame_at pool (length pool - 1) ≡ some moved
    → frame_at (swap_remove idx pool) j ≡ (
        if ltb j (length pool - 1)
        then (if idx == j then some moved else frame_at pool j)
        else none)
swap_remove-frames pool idx moved j h =
    let n = length pool - 1 in
    ap (λ fs. frame_at fs j) (swap_remove-some pool idx moved h)
    ∙ (unfold frame_at in
        let below = get_elem?-below pool n moved (unfold frame_at in h) in
        get_elem?-set (take n pool) idx moved j
        ∙ ground (arith, get_elem?-take pool n j, length-take_below pool n (omega arith)))

pub fix_swapped_frame-some :
    (p : BufferPool) (idx : ℕ) (f : BufferFrame)
    → frame_at p.pool idx ≡ some f
    → fix_swapped_frame p idx ≡ record (p) { frames = OrdMap.insert f.page_id idx p.frames }
unfolding fix_swapped_frame
fix_swapped_frame-some p idx f h = rw (fix_swapped_frame, h) refl

pub fix_swapped_frame-none :
    (p : BufferPool) (idx : ℕ) → frame_at p.pool idx ≡ none → fix_swapped_frame p idx ≡ p
unfolding fix_swapped_frame
fix_swapped_frame-none p idx h = rw (fix_swapped_frame, h) refl

-- The pool before the index is mended.
abbrev pub shortened : BufferPool → ℕ → ℕ → BufferPool
shortened p page idx = record (p) {
  frames = OrdMap.remove page p.frames;
  pool = swap_remove idx p.pool;
  lru = Lru.remove p.lru page;
}

pub drop_page-shortened :
    (p : BufferPool) (page idx : ℕ)
    → drop_page p page idx ≡ fix_swapped_frame (shortened p page idx) idx
unfolding drop_page
drop_page-shortened p page idx = refl

pub frame_of-none : (p : BufferPool) (q : ℕ) → OrdMap.get q p.frames ≡ none → frame_of p q ≡ none
unfolding frame_of
frame_of-none p q h = rw (frame_of, h) refl

pub frame_of-some :
    (p : BufferPool) (q k : ℕ) → OrdMap.get q p.frames ≡ some k → frame_of p q ≡ frame_at p.pool k
unfolding frame_of
frame_of-some p q k h = rw (frame_of, h) refl

pub drop_page-lru :
    (p : BufferPool) (page idx : ℕ) → (drop_page p page idx).lru ≡ Lru.remove p.lru page
drop_page-lru p page idx = elim (Option-cases (frame_at (swap_remove idx p.pool) idx)) [
  | inl h ↦
      ap (λ w. w.lru)
        (drop_page-shortened p page idx ∙ fix_swapped_frame-none (shortened p page idx) idx h)
  | inr (f, h) ↦
      ap (λ w. w.lru)
        (drop_page-shortened p page idx ∙ fix_swapped_frame-some (shortened p page idx) idx f h)
]
