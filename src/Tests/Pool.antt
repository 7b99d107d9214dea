-- ===== src/Tests/Pool.antt =====
-- The order of use and an eviction on concrete pools.
use cypher_lite.Prelude.{◌≡◌, refl, false, some, [], ◌∷◌}
use cypher_lite.Core.Result.{ok}
use cypher_lite.OrdMap
use cypher_lite.Pool.Lru
use cypher_lite.Pool.Lru.{
  LruList, new_list, push_back, touch, iter_lru, iterate, alloc_node, link_before, set_prev,
  set_next, unlink, node_at,
}
use cypher_lite.Pool.Using.{starts, pushes, touches, iter_lru-Used}
use cypher_lite.Pool.Buffer.{
  BufferPool, new_pool, insert, get, pin, evict, evict_pid, update_frame, frame_of, frame_at,
  drop_page, fix_swapped_frame, swap_remove, update_at,
}
use cypher_lite.Pool.Eviction.{Evicts}
use cypher_lite.Pool.History.{creates, inserts, gets, pins, evict-Reached}

abbrev two_pages : LruList
two_pages = push_back (push_back new_list 5) 7

iter_lru-Used_example : iter_lru (touch two_pages 5) ≡ 7 ∷ 5 ∷ []
iter_lru-Used_example = iter_lru-Used (touch two_pages 5) (7 ∷ 5 ∷ []) (
    touches two_pages (5 ∷ 7 ∷ []) 5
      (pushes (push_back new_list 5) (5 ∷ []) 7 (pushes new_list [] 5 starts refl) refl))

-- Page 5 is read after page 7 was put in.
abbrev read_pool : BufferPool
read_pool = (get (insert (insert (new_pool 4) 5 (1 ∷ [])) 7 (2 ∷ [])) 5).1

-- Then page 7 is pinned, so that page 5 has to go.
abbrev pinned_pool : BufferPool
pinned_pool = pin read_pool 7

evict-Reached_example : Evicts pinned_pool (7 ∷ 5 ∷ []) (evict pinned_pool)
evict-Reached_example = evict-Reached pinned_pool (7 ∷ 5 ∷ []) (
    pins read_pool (7 ∷ 5 ∷ []) 7 (
      gets (insert (insert (new_pool 4) 5 (1 ∷ [])) 7 (2 ∷ [])) (5 ∷ 7 ∷ []) 5 (
        inserts (insert (new_pool 4) 5 (1 ∷ [])) (5 ∷ []) 7 (2 ∷ [])
          (inserts (new_pool 4) [] 5 (1 ∷ []) (creates 4)))))

-- and it goes, though it was read last.
evict-goes_5 : (evict pinned_pool).0 ≡ ok (some (5, 1 ∷ [], false))
unfolding evict insert get new_pool evict_pid iter_lru iterate update_frame OrdMap.get OrdMap.insert
    touch push_back alloc_node new_list link_before set_prev set_next unlink node_at frame_of
    frame_at OrdMap.remove drop_page fix_swapped_frame swap_remove update_at Lru.remove
evict-goes_5 = refl
