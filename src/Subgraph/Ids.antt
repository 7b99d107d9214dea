-- ===== src/Subgraph/Ids.antt =====
-- No id of a subgraph is given out while a record has it.
use cypher_lite.Prelude.{ℕ, ◌+◌, ◌<◌, ◌≡◌, Option, some, arith, u64_mod}
use cypher_lite.Core.{SubgraphRecord, SubgraphId, Properties}
use cypher_lite.OrdMap.Laws.{get-nil, get-insert, get-remove}
use cypher_lite.Subgraph.{
  SubgraphStore, new_subgraph_store, create, get, delete, insert_loaded_record,
}

-- What happens to a store while there are ids: `Has s` are the stores that come about.
pub data Has : SubgraphStore → Type 0 where
  starts : (start_id : ℕ) → Has (new_subgraph_store start_id)
  creates :
      (s : SubgraphStore) (ps : Properties) (anchor : Option ℕ)
      → Has s
      → s.next_id + 1 < u64_mod
      → Has (create s ps anchor).1
  deletes : (s : SubgraphStore) (id : SubgraphId) → Has s → Has (delete s id).1
  loads :
      (s : SubgraphStore) (r : SubgraphRecord)
      → Has s
      → r.subgraph_id + 1 < u64_mod
      → Has (insert_loaded_record s r)

-- However records came into the store and left it, each stands under its own id, and the id that the
-- next `create` returns is larger than all of them.
pub get-Has :
    (s : SubgraphStore) (id : SubgraphId) (r : SubgraphRecord)
    → Has s
    → get s id ≡ some r
    → (r.subgraph_id ≡ id) × (id < s.next_id)
unfolding get create delete insert_loaded_record new_subgraph_store
get-Has _ id r (starts start_id) h = absurd (ground (arith, get-nil {V = SubgraphRecord} id))
get-Has _ id r (creates s ps anchor before room) h = ground (
  arith,
  get-Has s id r before,
  get-insert s.next_id id
      (record { subgraph_id = s.next_id; temporal_anchor = anchor; properties = ps }) s.records,
)
get-Has _ id r (deletes s gone before) h =
    ground (arith, get-Has s id r before, get-remove gone id s.records)
get-Has _ id r (loads s l before room) h =
    ground (arith, get-Has s id r before, get-insert l.subgraph_id id l s.records)
