-- ===== src/Record/Nodes.antt =====
-- Node and edge records as bytes (page/record_serialization.rs). A reading starts at offset 0 of the
-- buffer and says where it ended. `ensure` of a whole sequence comes before the reads of its elements,
-- as in the source, so that no read of an element runs past the end.
pub mod RoundTrip
use cypher_lite.Prelude.{ℕ, ◌+◌, ◌*◌, Bool, false, Option, none, some, List, ◌++◌, length}
use cypher_lite.Core.{NodeRecord, RelationshipRecord, outgoing}
use cypher_lite.File.{Bytes}
use cypher_lite.Endian.{to_le}
use cypher_lite.Record.Reader.{Reader, pure, ◌>>=◌, ensure, read_uint, repeat}
use cypher_lite.Record.Property.{Bincode}
use cypher_lite.Record.Fields.{
  put_count, put_flags, put_words, put_properties, read_flags, read_properties,
}

-- The result of a reading of the whole buffer, with the bytes that it took.
abbrev pub consumed : {A : Type 0} → Option ((A × Bool) × ℕ) → Option (A × Bool × ℕ)
consumed none = none
consumed (some ((x, deleted), offset)) = some (x, deleted, offset)

module _ (bincode : Bincode) where
  unfoldable pub serialize_node_record : NodeRecord → Bool → Bytes
  serialize_node_record r deleted =
      to_le 8 (r.node_id)
      ++ (put_flags deleted
          ++ (put_count (length (r.labels))
              ++ (put_words 4 (r.labels) ++ put_properties bincode (r.properties))))

  unfoldable pub read_node_record : Reader (NodeRecord × Bool)
  read_node_record = do
    node_id ← read_uint 8
    deleted ← read_flags
    label_count ← read_uint 2
    _ ← ensure (label_count * 4)
    labels ← repeat label_count (read_uint 4)
    properties ← read_properties bincode
    pure (
      record {
        node_id = node_id;
        labels = labels;
        properties = properties;
        next_edge_id = none;
        overflow_page = none;
      },
      deleted,
    )

  unfoldable pub deserialize_node_record : Bytes → Option (NodeRecord × Bool × ℕ)
  deserialize_node_record buf = consumed (read_node_record buf 0)

  unfoldable pub serialize_edge_record : RelationshipRecord → Bool → Bytes
  serialize_edge_record r deleted =
      to_le 8 (r.edge_id)
      ++ (to_le 8 (r.start_node)
          ++ (to_le 8 (r.end_node)
              ++ (to_le 4 (r.rel_type_id)
                  ++ (put_flags deleted ++ put_properties bincode (r.properties)))))

  unfoldable pub read_edge_record : Reader (RelationshipRecord × Bool)
  read_edge_record = do
    edge_id ← read_uint 8
    source_id ← read_uint 8
    target_id ← read_uint 8
    rel_type_id ← read_uint 4
    deleted ← read_flags
    properties ← read_properties bincode
    pure (
      record {
        edge_id = edge_id;
        start_node = source_id;
        end_node = target_id;
        rel_type_id = rel_type_id;
        direction = outgoing;
        next_out_edge = none;
        next_in_edge = none;
        properties = properties;
        start_is_subgraph = false;
        end_is_subgraph = false;
      },
      deleted,
    )

  unfoldable pub deserialize_edge_record : Bytes → Option (RelationshipRecord × Bool × ℕ)
  deserialize_edge_record buf = consumed (read_edge_record buf 0)
