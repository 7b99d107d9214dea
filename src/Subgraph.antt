-- ===== src/Subgraph.antt =====
-- crates/cypherlite-storage/src/subgraph: the store of subgraphs (mod.rs) and who is in them
-- (membership.rs, whose code is `MultiIndex` with subgraphs as owners and nodes as members).
pub mod Ids
use cypher_lite.Prelude.{ℕ, Bool, Option, List, [], map, leb, if◌then◌else◌, add_u64}
use cypher_lite.Core.{SubgraphRecord, SubgraphId, NodeId, Properties}
use cypher_lite.OrdMap
use cypher_lite.OrdMap.{OrdMap}
use cypher_lite.MultiIndex
use cypher_lite.MultiIndex.{MultiIndex}

pub record SubgraphStore : Type 0 where
  pub records : OrdMap SubgraphRecord
  pub next_id : ℕ

unfoldable pub new_subgraph_store : ℕ → SubgraphStore
new_subgraph_store start_id = record { records = []; next_id = start_id }

unfoldable pub create : SubgraphStore → Properties → Option ℕ → SubgraphId × SubgraphStore
create s properties temporal_anchor =
    let subgraph : SubgraphRecord = record {
      subgraph_id = s.next_id;
      temporal_anchor = temporal_anchor;
      properties = properties;
    } in
    (
      s.next_id,
      record {
        records = OrdMap.insert s.next_id subgraph s.records;
        next_id = add_u64 s.next_id 1;
      },
    )

unfoldable pub get : SubgraphStore → SubgraphId → Option SubgraphRecord
get s id = OrdMap.get id s.records

unfoldable pub delete : SubgraphStore → SubgraphId → Option SubgraphRecord × SubgraphStore
delete s id = (OrdMap.get id s.records, record s { records = OrdMap.remove id s.records })

unfoldable pub insert_loaded_record : SubgraphStore → SubgraphRecord → SubgraphStore
insert_loaded_record s r =
    let id = r.subgraph_id in
    record {
      records = OrdMap.insert id r s.records;
      next_id = if leb s.next_id id then add_u64 id 1 else s.next_id;
    }

abbrev pub all : SubgraphStore → List SubgraphRecord
all s = map (λ e. e.1) s.records

-- membership.rs
abbrev pub MembershipIndex : Type 0
MembershipIndex = MultiIndex

abbrev pub add_member : MembershipIndex → SubgraphId → NodeId → MembershipIndex
add_member = MultiIndex.add

abbrev pub remove_member : MembershipIndex → SubgraphId → NodeId → Bool × MembershipIndex
remove_member = MultiIndex.remove

abbrev pub remove_subgraph : MembershipIndex → SubgraphId → List NodeId × MembershipIndex
remove_subgraph = MultiIndex.remove_all

abbrev pub memberships : MembershipIndex → NodeId → List SubgraphId
memberships = MultiIndex.owners
