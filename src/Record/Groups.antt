-- ===== src/Record/Groups.antt =====
-- Subgraph records, with their members, and hyperedge records, with their participants, as bytes
-- (page/record_serialization.rs). A reading starts at offset 0 of the buffer and says where it ended.
pub mod RoundTrip
use cypher_lite.Prelude.{
  ℕ, ◌+◌, Bool, true, false, Option, none, some, List, [], ◌∷◌, ◌++◌, ltb, ◌==◌, if◌then◌else◌,
  length, take, drop,
}
use cypher_lite.Core.{
  NodeId, SubgraphRecord, HyperEdgeRecord, GraphEntity, node, subgraph, hyper_edge, temporal_ref,
}
use cypher_lite.File.{Bytes}
use cypher_lite.Endian.{to_le, from_le}
use cypher_lite.Record.Reader.{Reader, pure, ◌>>=◌, read_uint, read_byte, repeat}
use cypher_lite.Record.Property.{Bincode}
use cypher_lite.Record.Fields.{
  concat_map, put_count, put_flags, put_words, put_properties, read_flags, read_properties,
}
use cypher_lite.Record.Nodes.{consumed}

unfoldable pub put_anchor : Option ℕ → Bytes
put_anchor (some anchor) = 1 ∷ to_le 8 anchor
put_anchor none = 0 ∷ []

unfoldable pub anchor_if : Bool → Reader (Option ℕ)
anchor_if true = do anchor ← read_uint 8; pure (some anchor)
anchor_if false = pure none

unfoldable pub read_anchor : Reader (Option ℕ)
read_anchor = do has_anchor ← read_byte; anchor_if (has_anchor == 1)

unfoldable pub serialize_graph_entity : GraphEntity → Bytes
serialize_graph_entity (node nid) = 0 ∷ to_le 8 nid
serialize_graph_entity (subgraph sid) = 1 ∷ to_le 8 sid
serialize_graph_entity (hyper_edge hid) = 2 ∷ to_le 8 hid
serialize_graph_entity (temporal_ref nid ts) = 3 ∷ (to_le 8 nid ++ to_le 8 ts)

-- An entity of one id, behind its tag.
abbrev with_id : (ℕ → GraphEntity) → Bytes → Option (GraphEntity × ℕ)
with_id make rest = if ltb (1 + length rest) 9 then none else some (make (from_le (take 8 rest)), 9)

unfoldable pub deserialize_graph_entity : Bytes → Option (GraphEntity × ℕ)
deserialize_graph_entity [] = none
deserialize_graph_entity (tag ∷ rest) =
    if tag == 0
    then with_id node rest
    else if tag == 1
    then with_id subgraph rest
    else if tag == 2
    then with_id hyper_edge rest
    else if tag == 3
    then (if ltb (1 + length rest) 17
        then none
        else some (temporal_ref (from_le (take 8 rest)) (from_le (take 8 (drop 8 rest))), 17))
    else none

abbrev moved : {A : Type 0} → ℕ → Option (A × ℕ) → Option (A × ℕ)
moved offset none = none
moved offset (some (x, n)) = some (x, offset + n)

-- `deserialize_graph_entity(&buf[offset..])?`, then `offset += consumed`
unfoldable pub read_graph_entity : Reader GraphEntity
read_graph_entity buf offset = moved offset (deserialize_graph_entity (drop offset buf))

module _ (bincode : Bincode) where
  unfoldable pub serialize_subgraph_record : SubgraphRecord → List NodeId → Bool → Bytes
  serialize_subgraph_record r members deleted =
      to_le 8 (r.subgraph_id)
      ++ (put_flags deleted
          ++ (put_anchor (r.temporal_anchor)
              ++ (put_properties bincode (r.properties)
                  ++ (put_count (length members) ++ put_words 8 members))))

  unfoldable pub read_subgraph_record : Reader ((SubgraphRecord × List NodeId) × Bool)
  read_subgraph_record = do
    subgraph_id ← read_uint 8
    deleted ← read_flags
    temporal_anchor ← read_anchor
    properties ← read_properties bincode
    member_count ← read_uint 2
    members ← repeat member_count (read_uint 8)
    pure (
      (
        record {
          subgraph_id = subgraph_id;
          temporal_anchor = temporal_anchor;
          properties = properties;
        },
        members,
      ),
      deleted,
    )

  unfoldable pub deserialize_subgraph_record :
      Bytes → Option ((SubgraphRecord × List NodeId) × Bool × ℕ)
  deserialize_subgraph_record buf = consumed (read_subgraph_record buf 0)

  unfoldable pub serialize_hyperedge_record : HyperEdgeRecord → Bool → Bytes
  serialize_hyperedge_record r deleted =
      to_le 8 (r.id)
      ++ (put_flags deleted
          ++ (to_le 4 (r.rel_type_id)
              ++ (put_count (length (r.sources))
                  ++ (concat_map serialize_graph_entity (r.sources)
                      ++ (put_count (length (r.targets))
                          ++ (concat_map serialize_graph_entity (r.targets)
                              ++ put_properties bincode (r.properties)))))))

  unfoldable pub read_hyperedge_record : Reader (HyperEdgeRecord × Bool)
  read_hyperedge_record = do
    id ← read_uint 8
    deleted ← read_flags
    rel_type_id ← read_uint 4
    src_count ← read_uint 2
    sources ← repeat src_count read_graph_entity
    tgt_count ← read_uint 2
    targets ← repeat tgt_count read_graph_entity
    properties ← read_properties bincode
    pure (
      record {
        id = id;
        rel_type_id = rel_type_id;
        sources = sources;
        targets = targets;
        properties = properties;
      },
      deleted,
    )

  unfoldable pub deserialize_hyperedge_record : Bytes → Option (HyperEdgeRecord × Bool × ℕ)
  deserialize_hyperedge_record buf = consumed (read_hyperedge_record buf 0)
