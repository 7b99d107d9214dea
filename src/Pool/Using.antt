-- ===== src/Pool/Using.antt =====
-- An `LruList` over any sequence of its operations (page/buffer_pool.rs).
use cypher_lite.Prelude.{
  ℕ, ◌≡◌, sym, ◌∙◌, false, List, [], ◌∷◌, ◌++◌, contains, if◌then◌else◌, Option-cases, inl, inr,
}
use cypher_lite.OrdMap
use cypher_lite.Pool.Lru.{LruList, new_list, push_back, remove, touch, iter_lru}
use cypher_lite.Pool.Recency.{Lists, without, iter_lru-Lists, new_list-Lists}
use cypher_lite.Pool.Order.{remove-Lists, touch-Lists, present-contains}
use cypher_lite.Pool.Pushing.{push_back-Lists}

-- The list after some operations, with the pages in the order of their last use. `push_back` is called
-- with a page that is not in the list, as the source asserts.
pub data Used : LruList → List ℕ → Type 0 where
  starts : Used new_list []
  pushes :
      (l : LruList) (ps : List ℕ) (page : ℕ)
      → Used l ps
      → contains ps page ≡ false
      → Used (push_back l page) (ps ++ (page ∷ []))
  removes :
      (l : LruList) (ps : List ℕ) (page : ℕ) → Used l ps → Used (remove l page) (without page ps)
  touches :
      (l : LruList) (ps : List ℕ) (page : ℕ)
      → Used l ps
      → Used (touch l page) (if contains ps page then without page ps ++ (page ∷ []) else ps)

pub Used-Lists : (l : LruList) (ps : List ℕ) → Used l ps → Lists l ps
Used-Lists _ _ starts = new_list-Lists
Used-Lists _ _ (pushes l ps page u h) =
    let listed = Used-Lists l ps u in
    push_back-Lists l ps page listed (elim (Option-cases (OrdMap.get page l.map)) [
      | inl e ↦ e
      | inr (i, e) ↦ absurd (let clash = sym (present-contains l ps page listed i e) ∙ h in cc)
    ])
Used-Lists _ _ (removes l ps page u) = remove-Lists l ps page (Used-Lists l ps u)
Used-Lists _ _ (touches l ps page u) = touch-Lists l ps page (Used-Lists l ps u)

-- Whatever pages are put in, touched and removed, in any order, the iteration ends within as many steps
-- as the arena has nodes and gives the pages in the order of their last use, the least recent first.
pub iter_lru-Used : (l : LruList) (ps : List ℕ) → Used l ps → iter_lru l ≡ ps
iter_lru-Used l ps u = iter_lru-Lists l ps (Used-Lists l ps u)
