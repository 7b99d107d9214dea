-- ===== src/Pool/History.antt =====
-- A `BufferPool` after any sequence of its operations (page/buffer_pool.rs).
use cypher_lite.Prelude.{
  ℕ, ◌-◌, ◌≡◌, refl, sym, subst, ◌∙◌, Bool, true, false, Option, none, some, List, [], ◌==◌, length,
  contains, Bool-cases, Option-cases, inl, inr, add_u32,
}
use cypher_lite.OrdMap
use cypher_lite.Core.Result.{Result, ok, err}
use cypher_lite.Core.{out_of_space}
use cypher_lite.File.{Bytes}
use cypher_lite.Pool.Lru
use cypher_lite.Pool.Recency.{without}
use cypher_lite.Pool.Buffer
use cypher_lite.Pool.Buffer.{
  BufferFrame, BufferPool, new_pool, frame_of, update_at, update_frame, insert, get, get_mut, pin,
  unpin, mark_dirty, clear_dirty, drop_page, fix_swapped_frame, evict_pid, evict,
}
use cypher_lite.Pool.Frames.{frame_of-none}
use cypher_lite.Pool.Eviction.{
  Evicts, evict-Evicts, find_page-some, can_go-frame, evict-none, evict-page, evict_pid-Used,
}
use cypher_lite.Pool.Reaching.{
  touched, used_last, IsPool, new_pool-IsPool, insert-IsPool, update_frame-IsPool,
  touch_page-IsPool, drop_page-IsPool, without-absent, absent_so,
}

-- What a call of `evict` leaves of the order of use.
abbrev pub after_evict : Result (Option (ℕ × Bytes × Bool)) → List ℕ → List ℕ
after_evict (ok (some (page, contents, dirty))) ps = without page ps
after_evict _ ps = ps

-- The pool after some operations, with its pages in the order of their last use.
pub data Reached : BufferPool → List ℕ → Type 0 where
  creates : (capacity : ℕ) → Reached (new_pool capacity) []
  inserts :
      (p : BufferPool) (ps : List ℕ) (page : ℕ) (c : Bytes)
      → Reached p ps
      → Reached (insert p page c) (used_last page ps)
  gets :
      (p : BufferPool) (ps : List ℕ) (page : ℕ)
      → Reached p ps
      → Reached ((get p page).1) (touched page ps)
  gets_mut :
      (p : BufferPool) (ps : List ℕ) (page : ℕ)
      → Reached p ps
      → Reached ((get_mut p page).1) (touched page ps)
  -- a write of bytes through the reference of `get_mut`
  writes :
      (p : BufferPool) (ps : List ℕ) (page : ℕ) (c : Bytes)
      → Reached p ps
      → Reached (update_frame (λ f. record f { contents = c }) p page) ps
  pins : (p : BufferPool) (ps : List ℕ) (page : ℕ) → Reached p ps → Reached (pin p page) ps
  unpins : (p : BufferPool) (ps : List ℕ) (page : ℕ) → Reached p ps → Reached (unpin p page) ps
  marks : (p : BufferPool) (ps : List ℕ) (page : ℕ) → Reached p ps → Reached (mark_dirty p page) ps
  clears :
      (p : BufferPool) (ps : List ℕ) (page : ℕ) → Reached p ps → Reached (clear_dirty p page) ps
  drops :
      (p : BufferPool) (ps : List ℕ) (page : ℕ)
      → Reached p ps
      → Reached ((Buffer.remove p page).1) (without page ps)
  evicts :
      (p : BufferPool) (ps : List ℕ)
      → Reached p ps
      → Reached ((evict p).1) (after_evict ((evict p).0) ps)

touched-absent : (page : ℕ) (ps : List ℕ) → contains ps page ≡ false → ps ≡ touched page ps
touched-absent page ps h = rw h refl

get-IsPool :
    (p : BufferPool) (ps : List ℕ) (page : ℕ)
    → IsPool p ps
    → IsPool ((get p page).1) (touched page ps)
unfolding get
get-IsPool p ps page inv = elim (Option-cases (OrdMap.get page p.frames)) [
  | inl h ↦
      let e : (get p page).1 ≡ p = rw (get, h) refl in
      subst (λ q. IsPool q (touched page ps)) (sym e)
        (subst (IsPool p) (touched-absent page ps (absent_so p ps page inv h)) inv)
  | inr (idx, h) ↦
      let e : (get p page).1 ≡ record (p) { lru = Lru.touch p.lru page } = rw (get, h) refl in
      subst (λ q. IsPool q (touched page ps)) (sym e) (touch_page-IsPool p ps page inv)
]

get_mut-IsPool :
    (p : BufferPool) (ps : List ℕ) (page : ℕ)
    → IsPool p ps
    → IsPool ((get_mut p page).1) (touched page ps)
unfolding get_mut
get_mut-IsPool p ps page inv = elim (Option-cases (OrdMap.get page p.frames)) [
  | inl h ↦
      let e : (get_mut p page).1 ≡ p = rw (get_mut, h) refl in
      subst (λ q. IsPool q (touched page ps)) (sym e)
        (subst (IsPool p) (touched-absent page ps (absent_so p ps page inv h)) inv)
  | inr (idx, h) ↦
      let t : BufferPool = record (p) { lru = Lru.touch p.lru page } in
      let e : (get_mut p page).1 ≡ update_frame (λ f. record f { dirty = true }) t page =
        rw (get_mut, h) refl in
      subst (λ q. IsPool q (touched page ps)) (sym e)
        (update_frame-IsPool t (touched page ps) page (touch_page-IsPool p ps page inv)
          (λ f. record f { dirty = true }) (λ x. refl))
]

remove-IsPool :
    (p : BufferPool) (ps : List ℕ) (page : ℕ)
    → IsPool p ps
    → IsPool ((Buffer.remove p page).1) (without page ps)
unfolding Buffer.remove
remove-IsPool p ps page inv = elim (Option-cases (OrdMap.get page p.frames)) [
  | inl h ↦
      let e : (Buffer.remove p page).1 ≡ p = rw (Buffer.remove, h) refl in
      subst (λ q. IsPool q (without page ps)) (sym e)
        (subst (IsPool p) (sym (without-absent ps page (absent_so p ps page inv h))) inv)
  | inr (idx, h) ↦
      let (f, at, _) = inv.framed.known page idx h in
      let e : (Buffer.remove p page).1 ≡ drop_page p page idx = rw (Buffer.remove, h, at) refl in
      subst (λ q. IsPool q (without page ps)) (sym e) (drop_page-IsPool p ps page inv idx h)
]

evict-IsPool :
    (p : BufferPool) (ps : List ℕ)
    → IsPool p ps
    → IsPool ((evict p).1) (after_evict ((evict p).0) ps)
evict-IsPool p ps inv = elim (Option-cases (evict_pid p)) [
  | inl h ↦ elim (Bool-cases (length p.pool == 0)) [
    | inl t ↦
        let e : evict p ≡ (ok none, p) = evict-none p h ∙ rw t refl in
        subst (λ r. IsPool (r.1) (after_evict (r.0) ps)) (sym e) inv
    | inr f ↦
        let e : evict p ≡ (err out_of_space, p) = evict-none p h ∙ rw f refl in
        subst (λ r. IsPool (r.1) (after_evict (r.0) ps)) (sym e) inv
  ]
  | inr (page, h) ↦
      let (_, _, _, _, go) = find_page-some p ps page (sym (evict_pid-Used p ps inv.used) ∙ h) in
      let (f, frame, _) = can_go-frame p page go in
      elim (Option-cases (OrdMap.get page p.frames)) [
        | inl e ↦ absurd (let clash : none ≡ some f = sym (frame_of-none p page e) ∙ frame in cc)
        | inr (idx, at) ↦
            subst (λ r. IsPool (r.1) (after_evict (r.0) ps))
              (sym (evict-page p page idx f inv.framed h at frame))
              (drop_page-IsPool p ps page inv idx at)
      ]
]

Reached-IsPool : (p : BufferPool) (ps : List ℕ) → Reached p ps → IsPool p ps
Reached-IsPool _ _ (creates capacity) = new_pool-IsPool capacity
Reached-IsPool _ _ (inserts p ps page c r) = insert-IsPool p ps page (Reached-IsPool p ps r) c
Reached-IsPool _ _ (gets p ps page r) = get-IsPool p ps page (Reached-IsPool p ps r)
Reached-IsPool _ _ (gets_mut p ps page r) = get_mut-IsPool p ps page (Reached-IsPool p ps r)
Reached-IsPool _ _ (writes p ps page c r) =
    update_frame-IsPool p ps page (Reached-IsPool p ps r) (λ f. record f { contents = c })
      (λ x. refl)
Reached-IsPool _ _ (pins p ps page r) =
    update_frame-IsPool p ps page (Reached-IsPool p ps r)
      (λ f. record f { pin_count = add_u32 f.pin_count 1 }) (λ x. refl)
Reached-IsPool _ _ (unpins p ps page r) =
    update_frame-IsPool p ps page (Reached-IsPool p ps r)
      (λ f. record f { pin_count = f.pin_count - 1 }) (λ x. refl)
Reached-IsPool _ _ (marks p ps page r) =
    update_frame-IsPool p ps page (Reached-IsPool p ps r) (λ f. record f { dirty = true })
      (λ x. refl)
Reached-IsPool _ _ (clears p ps page r) =
    update_frame-IsPool p ps page (Reached-IsPool p ps r) (λ f. record f { dirty = false })
      (λ x. refl)
Reached-IsPool _ _ (drops p ps page r) = remove-IsPool p ps page (Reached-IsPool p ps r)
Reached-IsPool _ _ (evicts p ps r) = evict-IsPool p ps (Reached-IsPool p ps r)

-- In every pool that `new_pool` and any sequence of the operations reach (inserts, reads, writes, pins,
-- unpins, flag changes, removals, evictions), where `ps` lists the cached pages from the least to the most
-- recently used: `evict` does not panic. It reports that there is nothing to evict (the pool is empty) or
-- no space (every page is pinned), and changes nothing; or the first page of `ps` that is not pinned goes,
-- with its contents and its dirty flag, and every other page keeps its frame.
pub evict-Reached : (p : BufferPool) (ps : List ℕ) → Reached p ps → Evicts p ps (evict p)
evict-Reached p ps r = let inv = Reached-IsPool p ps r in evict-Evicts p ps inv.framed inv.used
