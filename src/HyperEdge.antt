-- ===== src/HyperEdge.antt =====
-- crates/cypherlite-storage/src/hyperedge: the store of hyperedges (mod.rs) and who takes part in them
-- (reverse_index.rs, whose code is `MultiIndex` with hyperedges as owners and entities as members).
pub mod Ids
use cypher_lite.Prelude.{ℕ, Bool, Option, List, [], map, leb, if◌then◌else◌, add_u64}
use cypher_lite.Core.{HyperEdgeRecord, HyperEdgeId, GraphEntity, Properties}
use cypher_lite.OrdMap
use cypher_lite.OrdMap.{OrdMap}
use cypher_lite.MultiIndex
use cypher_lite.MultiIndex.{MultiIndex}

pub record HyperEdgeStore : Type 0 where
  pub records : OrdMap HyperEdgeRecord
  pub next_id : ℕ

unfoldable pub new_hyper_edge_store : ℕ → HyperEdgeStore
new_hyper_edge_store start_id = record { records = []; next_id = start_id }

unfoldable pub create :
    HyperEdgeStore
    → ℕ
    → List GraphEntity
    → List GraphEntity
    → Properties
    → HyperEdgeId × HyperEdgeStore
create s rel_type_id sources targets properties =
    let hyper_edge : HyperEdgeRecord = record {
      id = s.next_id;
      rel_type_id = rel_type_id;
      sources = sources;
      targets = targets;
      properties = properties;
    } in
    (
      s.next_id,
      record {
        records = OrdMap.insert s.next_id hyper_edge s.records;
        next_id = add_u64 s.next_id 1;
      },
    )

unfoldable pub get : HyperEdgeStore → HyperEdgeId → Option HyperEdgeRecord
get s id = OrdMap.get id s.records

unfoldable pub delete : HyperEdgeStore → HyperEdgeId → Option HyperEdgeRecord × HyperEdgeStore
delete s id = (OrdMap.get id s.records, record s { records = OrdMap.remove id s.records })

unfoldable pub insert_loaded_record : HyperEdgeStore → HyperEdgeRecord → HyperEdgeStore
insert_loaded_record s r =
    let id = r.id in
    record {
      records = OrdMap.insert id r s.records;
      next_id = if leb s.next_id id then add_u64 id 1 else s.next_id;
    }

abbrev pub all : HyperEdgeStore → List HyperEdgeRecord
all s = map (λ e. e.1) s.records

-- reverse_index.rs
abbrev pub HyperEdgeReverseIndex : Type 0
HyperEdgeReverseIndex = MultiIndex

abbrev pub add_participant : HyperEdgeReverseIndex → HyperEdgeId → ℕ → HyperEdgeReverseIndex
add_participant = MultiIndex.add

abbrev pub remove_participant :
    HyperEdgeReverseIndex → HyperEdgeId → ℕ → Bool × HyperEdgeReverseIndex
remove_participant = MultiIndex.remove

abbrev pub remove_hyper_edge : HyperEdgeReverseIndex → HyperEdgeId → List ℕ × HyperEdgeReverseIndex
remove_hyper_edge = MultiIndex.remove_all

abbrev pub hyperedges_for : HyperEdgeReverseIndex → ℕ → List HyperEdgeId
hyperedges_for = MultiIndex.owners

abbrev pub participants_for : HyperEdgeReverseIndex → HyperEdgeId → List ℕ
participants_for = MultiIndex.members
