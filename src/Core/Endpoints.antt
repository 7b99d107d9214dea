-- ===== src/Core/Endpoints.antt =====
-- The endpoints of a relationship as graph entities (types.rs).
use cypher_lite.Prelude.{ℕ, ◌≡◌, Bool, true, false, Option, ◌||◌, arith, if◌then◌else◌}
use cypher_lite.Core.{
  GraphEntity, node, subgraph, hyper_edge, temporal_ref, RelationshipRecord, Direction, EdgeId,
  NodeId, Properties,
}

unfoldable pub start_entity : RelationshipRecord → GraphEntity
start_entity r = if r.start_is_subgraph then subgraph r.start_node else node r.start_node

unfoldable pub end_entity : RelationshipRecord → GraphEntity
end_entity r = if r.end_is_subgraph then subgraph r.end_node else node r.end_node

unfoldable pub is_subgraph_edge : RelationshipRecord → Bool
is_subgraph_edge r = r.start_is_subgraph || r.end_is_subgraph

-- The two `match` blocks of `from_entities`.
unfoldable pub endpoint : GraphEntity → NodeId × Bool
endpoint (node id) = (id, false)
endpoint (subgraph id) = (id, true)
endpoint (hyper_edge id) = (id, false)
endpoint (temporal_ref id t) = (id, false)

unfoldable pub from_entities :
    EdgeId
    → GraphEntity
    → GraphEntity
    → ℕ
    → Direction
    → Option EdgeId
    → Option EdgeId
    → Properties
    → RelationshipRecord
unfolding endpoint
from_entities edge_id start end rel_type_id direction next_out next_in properties = record {
  edge_id = edge_id;
  start_node = (endpoint start).0;
  end_node = (endpoint end).0;
  rel_type_id = rel_type_id;
  direction = direction;
  next_out_edge = next_out;
  next_in_edge = next_in;
  properties = properties;
  start_is_subgraph = (endpoint start).1;
  end_is_subgraph = (endpoint end).1;
}

-- What an endpoint reads back as.
unfoldable pub flattened : GraphEntity → GraphEntity
flattened (node id) = node id
flattened (subgraph id) = subgraph id
flattened (hyper_edge id) = node id
flattened (temporal_ref id t) = node id

pub start_entity-from_entities :
    (id : EdgeId) (s e : GraphEntity) (t : ℕ) (d : Direction) (o i : Option EdgeId) (p : Properties)
    → (start_entity (from_entities id s e t d o i p) ≡ flattened s)
      × (end_entity (from_entities id s e t d o i p) ≡ flattened e)
unfolding start_entity end_entity from_entities flattened
start_entity-from_entities id s e t d o i p = ground arith
