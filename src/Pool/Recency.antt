-- ===== src/Pool/Recency.antt =====
-- What an `LruList` keeps true, and the pages that it lists (page/buffer_pool.rs).
use cypher_lite.Prelude.{
  ℕ, zero, suc, ◌+◌, ◌<◌, ◌≡◌, refl, sym, ◌∙◌, false, not, some, List, [], ◌∷◌, ◌++◌, arith, length,
  map, retain, ◌==◌, length-append,
}
use cypher_lite.OrdMap
use cypher_lite.OrdMap.{OrdMap}
use cypher_lite.OrdMap.Laws.{get-nil}
use cypher_lite.Pool.Lru.{LruNode, LruList, head, tail, node_at, new_list, iter_lru, iterate}
use cypher_lite.Pool.Segments.{Fresh, Distinct, Member, Seg, Fresh-append}
use cypher_lite.Pool.Links.{Inside, Linked}
use cypher_lite.Pool.Fields.{next_of, prev_of, page_of}

-- Every node of the list is where the map says its page is.
abbrev pub Placed : List LruNode → OrdMap ℕ → List ℕ → Type 0
Placed arena m [] = Unit
Placed arena m (i ∷ is) = (OrdMap.get (page_of arena i) m ≡ some i) × Placed arena m is

-- The nodes `is`, in order: they are linked, they and the free slots are different nodes of the arena
-- and all of it, and the map knows exactly their pages.
pub record IsLru (l : LruList) (is : List ℕ) : Type 0 where
  pub linked : Linked l.arena is
  pub inside : Inside l.arena (head ∷ tail ∷ (is ++ l.free_slots))
  pub distinct : Distinct (head ∷ tail ∷ (is ++ l.free_slots))
  pub sized : length l.arena ≡ 2 + length (is ++ l.free_slots)
  pub placed : Placed l.arena l.map is
  pub found :
      (page i : ℕ) → OrdMap.get page l.map ≡ some i → Member i is × (page_of l.arena i ≡ page)

abbrev pub pages : LruList → List ℕ → List ℕ
pages l is = map (page_of l.arena) is

-- The list has these pages, from the least to the most recently used.
abbrev pub Lists : LruList → List ℕ → Type 0
Lists l ps = (is : List ℕ) × IsLru l is × (pages l is ≡ ps)

-- `retain(|p| p != page)`
abbrev pub without : ℕ → List ℕ → List ℕ
without page = retain (λ p. not (p == page))

iterate-Seg :
    (arena : List LruNode) (a : ℕ) (is : List ℕ) (fuel : ℕ)
    → Seg (next_of arena) (prev_of arena) a is tail
    → Fresh tail is
    → length is < fuel
    → iterate fuel arena (next_of arena a) ≡ map (page_of arena) is
unfolding iterate
iterate-Seg arena a [] zero s f h = absurd (omega arith)
iterate-Seg arena a [] (suc fuel) s f h = rw (s.0) refl
iterate-Seg arena a (i ∷ is) zero s f h = absurd (omega arith)
iterate-Seg arena a (i ∷ is) (suc fuel) s (g, f) h =
    let rest = iterate-Seg arena i is fuel (s.2) f (omega arith) in
    let inner : (i == tail) ≡ false = ground arith in rw (s.0, inner, rest) refl

-- A list with these pages is iterated to them: it has no cycle, and the steps that the arena allows are
-- enough.
pub iter_lru-Lists : (l : LruList) (ps : List ℕ) → Lists l ps → iter_lru l ≡ ps
unfolding iter_lru
iter_lru-Lists l ps (is, inv, e) =
    let (tail_is, _) = Fresh-append tail is l.free_slots ((inv.distinct.1).0) in
    iterate-Seg l.arena head is (length l.arena) inv.linked tail_is
      (omega (arith, inv.sized, length-append is l.free_slots))
    ∙ e

pub new_list-Lists : Lists new_list []
unfolding new_list
new_list-Lists = (
  [],
  record {
    linked = unfold node_at in (refl, refl);
    inside = (omega arith, (omega arith, tt));
    distinct = ((ground arith, tt), (tt, tt));
    sized = refl;
    placed = tt;
    found = λ page i h. absurd (let clash = sym (get-nil {V = ℕ} page) ∙ h in cc);
  },
  refl,
)
