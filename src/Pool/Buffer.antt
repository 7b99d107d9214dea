-- ===== src/Pool/Buffer.antt =====
-- `BufferPool` of page/buffer_pool.rs: frames in a vector, the index of the frame of every page, and the
-- pages in order of use. An index out of bounds, at which the source panics, changes nothing.
use cypher_lite.Prelude.{
  ℕ, ◌-◌, Bool, true, false, Option, none, some, List, [], ◌∷◌, ◌++◌, ltb, leb, ◌==◌, if◌then◌else◌,
  length, get_elem?, set, take, add_u32,
}
use cypher_lite.Core.{PageId, out_of_space}
use cypher_lite.Core.Result.{Result, ok, err, panic}
use cypher_lite.File.{Bytes}
use cypher_lite.OrdMap
use cypher_lite.OrdMap.{OrdMap}
use cypher_lite.Pool.Lru
use cypher_lite.Pool.Lru.{LruList, new_list, push_back, touch, iter_lru}

pub record BufferFrame : Type 0 where
  pub page_id : PageId
  pub contents : Bytes
  pub dirty : Bool
  pub pin_count : ℕ

pub record BufferPool : Type 0 where
  pub frames : OrdMap ℕ
  pub pool : List BufferFrame
  pub lru : LruList
  pub capacity : ℕ

unfoldable pub new_pool : ℕ → BufferPool
new_pool capacity = record { frames = []; pool = []; lru = new_list; capacity = capacity }

abbrev pub size : BufferPool → ℕ
size p = length p.pool

-- `pool[idx]`
unfoldable pub frame_at : List BufferFrame → ℕ → Option BufferFrame
frame_at pool idx = get_elem? pool idx

-- The frame of a page, if it is cached.
unfoldable pub frame_of : BufferPool → PageId → Option BufferFrame
frame_of p page = elim (OrdMap.get page p.frames) [ none ↦ none | some idx ↦ frame_at p.pool idx ]

-- A write to `pool[idx]`
unfoldable pub update_at : (BufferFrame → BufferFrame) → ℕ → List BufferFrame → List BufferFrame
update_at f idx pool = elim (frame_at pool idx) [
  | none ↦ pool
  | some frame ↦ set pool idx (f frame)
]

-- `if let Some(&idx) = self.frames.get(&page_id) { .. self.pool[idx] .. }`
unfoldable pub update_frame : (BufferFrame → BufferFrame) → BufferPool → PageId → BufferPool
update_frame f p page = elim (OrdMap.get page p.frames) [
  | none ↦ p
  | some idx ↦ record p { pool = update_at f idx p.pool }
]

abbrev touch_page : BufferPool → PageId → BufferPool
touch_page p page = record p { lru = touch p.lru page }

unfoldable pub insert : BufferPool → PageId → Bytes → BufferPool
insert p page contents = elim (OrdMap.get page p.frames) [
  | some idx ↦ record p {
    pool = update_at (λ f. record f { contents = contents }) idx p.pool;
    lru = touch p.lru page;
  }
  | none ↦ record p {
    frames = OrdMap.insert page (length p.pool) p.frames;
    pool =
        p.pool
        ++ (record { page_id = page; contents = contents; dirty = false; pin_count = 0 } ∷ []);
    lru = push_back p.lru page;
  }
]

abbrev contents_of : Option BufferFrame → Option Bytes
contents_of none = none
contents_of (some f) = some f.contents

-- `touch` leaves a page alone that is not there.
unfoldable pub get : BufferPool → PageId → Option Bytes × BufferPool
get p page = elim (OrdMap.get page p.frames) [
  | none ↦ (none, p)
  | some idx ↦ (contents_of (frame_at p.pool idx), touch_page p page)
]

-- What is read, and the pool before anything is written through the reference.
unfoldable pub get_mut : BufferPool → PageId → Option Bytes × BufferPool
get_mut p page = elim (OrdMap.get page p.frames) [
  | none ↦ (none, p)
  | some idx ↦ (
    contents_of (frame_at p.pool idx),
    update_frame (λ f. record f { dirty = true }) (touch_page p page) page,
  )
]

abbrev pub pin : BufferPool → PageId → BufferPool
pin = update_frame (λ f. record f { pin_count = add_u32 f.pin_count 1 })

-- A count of 0 stays.
abbrev pub unpin : BufferPool → PageId → BufferPool
unpin = update_frame (λ f. record f { pin_count = f.pin_count - 1 })

abbrev pub mark_dirty : BufferPool → PageId → BufferPool
mark_dirty = update_frame (λ f. record f { dirty = true })

abbrev pub clear_dirty : BufferPool → PageId → BufferPool
clear_dirty = update_frame (λ f. record f { dirty = false })

abbrev unwrap_or_false : (BufferFrame → Bool) → Option BufferFrame → Bool
unwrap_or_false test none = false
unwrap_or_false test (some f) = test f

unfoldable pub is_dirty : BufferPool → PageId → Bool
is_dirty p page = unwrap_or_false (λ f. f.dirty) (frame_of p page)

unfoldable pub is_pinned : BufferPool → PageId → Bool
is_pinned p page = unwrap_or_false (λ f. ltb 0 f.pin_count) (frame_of p page)

unfoldable pub is_full : BufferPool → Bool
is_full p = leb p.capacity (length p.pool)

-- The frame goes, and the last one takes its place.
unfoldable pub swap_remove : ℕ → List BufferFrame → List BufferFrame
swap_remove idx pool =
    let shorter = take (length pool - 1) pool in
    elim (frame_at pool (length pool - 1)) [ none ↦ [] | some moved ↦ set shorter idx moved ]

-- The index of the frame that took the place, if there is one.
unfoldable pub fix_swapped_frame : BufferPool → ℕ → BufferPool
fix_swapped_frame p idx = elim (frame_at p.pool idx) [
  | none ↦ p
  | some swapped ↦ record p { frames = OrdMap.insert swapped.page_id idx p.frames }
]

-- The parts of `evict` and `remove` that take a page out.
unfoldable pub drop_page : BufferPool → PageId → ℕ → BufferPool
drop_page p page idx =
    let without = record p {
      frames = OrdMap.remove page p.frames;
      pool = swap_remove idx p.pool;
      lru = Lru.remove p.lru page;
    } in
    fix_swapped_frame without idx

abbrev pub can_go : BufferPool → PageId → Bool
can_go p page = unwrap_or_false (λ f. f.pin_count == 0) (frame_of p page)

abbrev pub find_page : (PageId → Bool) → List PageId → Option PageId
find_page test [] = none
find_page test (page ∷ ps) = if test page then some page else find_page test ps

-- The first page in order of use that is not pinned.
unfoldable pub evict_pid : BufferPool → Option PageId
evict_pid p = find_page (can_go p) (iter_lru p.lru)

abbrev pub evicted :
    BufferPool → PageId → Option ℕ → Result (Option (PageId × Bytes × Bool)) × BufferPool
evicted p page none = (panic, p)
evicted p page (some idx) = elim (frame_at p.pool idx) [
  | none ↦ (panic, p)
  | some f ↦ (ok (some (f.page_id, f.contents, f.dirty)), drop_page p page idx)
]

unfoldable pub evict : BufferPool → Result (Option (PageId × Bytes × Bool)) × BufferPool
evict p = elim (evict_pid p) [
  | some page ↦ evicted p page (OrdMap.get page p.frames)
  | none ↦ (if length p.pool == 0 then ok none else err out_of_space, p)
]

unfoldable pub remove : BufferPool → PageId → Option (Bytes × Bool) × BufferPool
remove p page = elim (OrdMap.get page p.frames) [
  | none ↦ (none, p)
  | some idx ↦ elim (frame_at p.pool idx) [
    | none ↦ (none, p)
    | some f ↦ (some (f.contents, f.dirty), drop_page p page idx)
  ]
]
