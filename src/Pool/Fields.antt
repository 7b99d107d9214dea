-- ===== src/Pool/Fields.antt =====
-- The fields of the nodes of an `LruList` after its writes (page/buffer_pool.rs).
use cypher_lite.Prelude.{
  ℕ, zero, suc, ◌<◌, ◌≡◌, refl, ap, ◌∙◌, List, [], ◌∷◌, arith, length, set, length-set, ◌==◌,
  if◌then◌else◌,
}
use cypher_lite.Pool.Lru.{LruNode, tail, node_at, set_prev, set_next, unlink, link_before}

abbrev pub next_of : List LruNode → ℕ → ℕ
next_of arena i = (node_at arena i).next

abbrev pub prev_of : List LruNode → ℕ → ℕ
prev_of arena i = (node_at arena i).prev

abbrev pub page_of : List LruNode → ℕ → ℕ
page_of arena i = (node_at arena i).page_id

pub node_at-set :
    (arena : List LruNode) (i : ℕ) (n : LruNode) (j : ℕ)
    → i < length arena
    → node_at (set arena i n) j ≡ (if i == j then n else node_at arena j)
unfolding node_at
node_at-set [] i n j h = absurd (omega arith)
node_at-set (x ∷ xs) zero n zero h = refl
node_at-set (x ∷ xs) zero n (suc j) h = ground arith
node_at-set (x ∷ xs) (suc i) n zero h = ground arith
node_at-set (x ∷ xs) (suc i) n (suc j) h = ground (arith, node_at-set xs i n j (omega arith))

-- What the two writes change.
pub set_next-fields :
    (arena : List LruNode) (i v j : ℕ)
    → i < length arena
    → (next_of (set_next i v arena) j ≡ (if i == j then v else next_of arena j))
      × (prev_of (set_next i v arena) j ≡ prev_of arena j)
      × (page_of (set_next i v arena) j ≡ page_of arena j)
      × (length (set_next i v arena) ≡ length arena)
unfolding set_next
set_next-fields arena i v j h = ground (
  arith,
  node_at-set arena i (record (node_at arena i) { next = v }) j h,
  length-set arena i (record (node_at arena i) { next = v }),
)

pub set_prev-fields :
    (arena : List LruNode) (i v j : ℕ)
    → i < length arena
    → (next_of (set_prev i v arena) j ≡ next_of arena j)
      × (prev_of (set_prev i v arena) j ≡ (if i == j then v else prev_of arena j))
      × (page_of (set_prev i v arena) j ≡ page_of arena j)
      × (length (set_prev i v arena) ≡ length arena)
unfolding set_prev
set_prev-fields arena i v j h = ground (
  arith,
  node_at-set arena i (record (node_at arena i) { prev = v }) j h,
  length-set arena i (record (node_at arena i) { prev = v }),
)

-- What `unlink` changes: the links over the node.
pub unlink-fields :
    (arena : List LruNode) (idx j : ℕ)
    → prev_of arena idx < length arena
    → next_of arena idx < length arena
    → (next_of (unlink idx arena) j
        ≡ (if prev_of arena idx == j then next_of arena idx else next_of arena j))
      × (prev_of (unlink idx arena) j
          ≡ (if next_of arena idx == j then prev_of arena idx else prev_of arena j))
      × (page_of (unlink idx arena) j ≡ page_of arena j)
      × (length (unlink idx arena) ≡ length arena)
unfolding unlink
unlink-fields arena idx j h k =
    let p = prev_of arena idx in
    let n = next_of arena idx in
    let first = set_next-fields arena p n j h in
    let second = set_prev-fields (set_next p n arena) n p j (omega (arith, first.3)) in
    (
      second.0 ∙ first.0,
      second.1 ∙ ap (λ x. if n == j then p else x) first.1,
      second.2 ∙ first.2,
      second.3 ∙ first.3,
    )

-- What `link_before` the tail changes: the links of the node and those to it.
pub link_before-fields :
    (arena : List LruNode) (idx j : ℕ)
    → idx < length arena
    → tail < length arena
    → prev_of arena tail < length arena
    → (next_of (link_before tail idx arena) j
        ≡ (if prev_of arena tail == j then idx else if idx == j then tail else next_of arena j))
      × (prev_of (link_before tail idx arena) j
          ≡ (if tail == j then idx else if idx == j then prev_of arena tail else prev_of arena j))
      × (page_of (link_before tail idx arena) j ≡ page_of arena j)
      × (length (link_before tail idx arena) ≡ length arena)
unfolding link_before
link_before-fields arena idx j h k l =
    let p = prev_of arena tail in
    let one = set_prev idx p arena in
    let two = set_next idx tail one in
    let three = set_next p idx two in
    let a = set_prev-fields arena idx p j h in
    let b = set_next-fields one idx tail j (omega (arith, a.3)) in
    let c = set_next-fields two p idx j (omega (arith, a.3, b.3)) in
    let d = set_prev-fields three tail idx j (omega (arith, a.3, b.3, c.3)) in
    (
      d.0
          ∙ c.0
          ∙ ap (λ x. if p == j then idx else x) (b.0 ∙ ap (λ x. if idx == j then tail else x) a.0),
      d.1 ∙ ap (λ x. if tail == j then idx else x) (c.1 ∙ b.1 ∙ a.1),
      d.2 ∙ c.2 ∙ b.2 ∙ a.2,
      d.3 ∙ c.3 ∙ b.3 ∙ a.3,
    )
