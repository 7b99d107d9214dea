-- ===== src/HyperEdge/Ids.antt =====
-- No id of a hyperedge is given out while a record has it.
use cypher_lite.Prelude.{ℕ, ◌+◌, ◌<◌, ◌≡◌, List, some, arith, u64_mod}
use cypher_lite.Core.{HyperEdgeRecord, HyperEdgeId, GraphEntity, Properties}
use cypher_lite.OrdMap.Laws.{get-nil, get-insert, get-remove}
use cypher_lite.HyperEdge.{
  HyperEdgeStore, new_hyper_edge_store, create, get, delete, insert_loaded_record,
}

-- The stores that come about while there are ids.
pub data Grown : HyperEdgeStore → Type 0 where
  starts : (start_id : ℕ) → Grown (new_hyper_edge_store start_id)
  creates :
      (s : HyperEdgeStore) (t : ℕ) (sources targets : List GraphEntity) (ps : Properties)
      → Grown s
      → s.next_id + 1 < u64_mod
      → Grown (create s t sources targets ps).1
  deletes : (s : HyperEdgeStore) (id : HyperEdgeId) → Grown s → Grown (delete s id).1
  loads :
      (s : HyperEdgeStore) (r : HyperEdgeRecord)
      → Grown s
      → r.id + 1 < u64_mod
      → Grown (insert_loaded_record s r)

-- However hyperedges came into the store and left it, each stands under its own id, and the id that
-- the next `create` returns is larger than all of them.
pub get-Grown :
    (s : HyperEdgeStore) (id : HyperEdgeId) (r : HyperEdgeRecord)
    → Grown s
    → get s id ≡ some r
    → (r.id ≡ id) × (id < s.next_id)
unfolding get create delete insert_loaded_record new_hyper_edge_store
get-Grown _ id r (starts start_id) h = absurd (ground (arith, get-nil {V = HyperEdgeRecord} id))
get-Grown _ id r (creates s t sources targets ps before room) h =
    let new : HyperEdgeRecord = record {
      id = s.next_id;
      rel_type_id = t;
      sources = sources;
      targets = targets;
      properties = ps;
    } in
    ground (arith, get-Grown s id r before, get-insert s.next_id id new s.records)
get-Grown _ id r (deletes s gone before) h =
    ground (arith, get-Grown s id r before, get-remove gone id s.records)
get-Grown _ id r (loads s l before room) h =
    ground (arith, get-Grown s id r before, get-insert l.id id l s.records)
