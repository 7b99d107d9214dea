-- ===== src/Pool/Lru.antt =====
-- `LruList` of page/buffer_pool.rs: pages in order of use, as a doubly linked list in an arena with a
-- sentinel at each end. The vector of free slots is kept with its end first. An index out of bounds, at
-- which the source panics, reads as a sentinel and writes nothing.
use cypher_lite.Prelude.{
  ℕ, zero, suc, Option, none, some, List, [], ◌∷◌, ◌++◌, ◌-◌, ◌^◌, ◌==◌, if◌then◌else◌, length,
  get_elem?, set,
}
use cypher_lite.Core.{PageId}
use cypher_lite.OrdMap
use cypher_lite.OrdMap.{OrdMap}

abbrev pub head : ℕ
head = 0

abbrev pub tail : ℕ
tail = 1

pub record LruNode : Type 0 where
  pub prev : ℕ
  pub next : ℕ
  pub page_id : PageId

pub record LruList : Type 0 where
  pub arena : List LruNode
  pub map : OrdMap ℕ
  pub free_slots : List ℕ

abbrev pub sentinel : LruNode
sentinel = record { prev = head; next = tail; page_id = 2 ^ 32 - 1 }

unfoldable pub new_list : LruList
new_list = record { arena = sentinel ∷ sentinel ∷ []; map = []; free_slots = [] }

abbrev or_sentinel : Option LruNode → LruNode
or_sentinel none = sentinel
or_sentinel (some n) = n

unfoldable pub node_at : List LruNode → ℕ → LruNode
node_at arena i = or_sentinel (get_elem? arena i)

-- `arena[i].prev = v` and `arena[i].next = v`
unfoldable pub set_prev : ℕ → ℕ → List LruNode → List LruNode
set_prev i v arena = set arena i (record (node_at arena i) { prev = v })

unfoldable pub set_next : ℕ → ℕ → List LruNode → List LruNode
set_next i v arena = set arena i (record (node_at arena i) { next = v })

-- The index of a node for the page, and the list that has it.
unfoldable pub alloc_node : LruList → PageId → ℕ × LruList
alloc_node l page = elim l.free_slots [
  | [] ↦ (
    length l.arena,
    record l { arena = l.arena ++ (record { prev = 0; next = 0; page_id = page } ∷ []) },
  )
  | idx ∷ rest ↦ (
    idx,
    record l {
      arena = set l.arena idx (record { prev = 0; next = 0; page_id = page });
      free_slots = rest;
    },
  )
]

unfoldable pub link_before : ℕ → ℕ → List LruNode → List LruNode
link_before before idx arena =
    let prev = (node_at arena before).prev in
    set_prev before idx (set_next prev idx (set_next idx before (set_prev idx prev arena)))

unfoldable pub unlink : ℕ → List LruNode → List LruNode
unlink idx arena =
    let prev = (node_at arena idx).prev in
    let nxt = (node_at arena idx).next in set_prev nxt prev (set_next prev nxt arena)

unfoldable pub push_back : LruList → PageId → LruList
push_back l page =
    let (idx, m) = alloc_node l page in
    record (m) { arena = link_before tail idx m.arena; map = OrdMap.insert page idx m.map }

unfoldable pub remove : LruList → PageId → LruList
remove l page = elim (OrdMap.get page l.map) [
  | none ↦ l
  | some idx ↦ record {
    arena = unlink idx l.arena;
    map = OrdMap.remove page l.map;
    free_slots = idx ∷ l.free_slots;
  }
]

unfoldable pub touch : LruList → PageId → LruList
touch l page = elim (OrdMap.get page l.map) [
  | none ↦ l
  | some idx ↦ record l { arena = link_before tail idx (unlink idx l.arena) }
]

-- The pages from a node on, by at most so many steps.
unfoldable pub iterate : ℕ → List LruNode → ℕ → List PageId
iterate zero arena current = []
iterate (suc fuel) arena current =
    let node = node_at arena current in
    let rest = iterate fuel arena node.next in if current == tail then [] else node.page_id ∷ rest

-- As many steps as there are nodes are enough for a list without a cycle.
unfoldable pub iter_lru : LruList → List PageId
iter_lru l = iterate (length l.arena) l.arena (node_at l.arena head).next
