-- ===== src/Record/Nodes/RoundTrip.antt =====
-- A node record and an edge record read back, whatever follows them (page/record_serialization.rs).
use cypher_lite.Prelude.{
  ℕ, ◌*◌, ◌^◌, ◌<◌, ◌≡◌, ap, Bool, false, none, some, List, [], ◌∷◌, ◌++◌, arith, length,
  length-append,
}
use cypher_lite.Core.{NodeRecord, RelationshipRecord, outgoing}
use cypher_lite.File.{Bytes}
use cypher_lite.Endian.{to_le, length-to_le, from_le-to_le_32, from_le-to_le_64}
use cypher_lite.Record.Reader.{read_uint}
use cypher_lite.Record.Reads.{
  Reads, Reads-read_uint, Reads-bind, Reads-map, Reads-ensure, Reads-start,
}
use cypher_lite.Record.Property.{Bincode}
use cypher_lite.Record.Property.RoundTrip.{IsBincode}
use cypher_lite.Record.Fields.{put_words, put_properties}
use cypher_lite.Record.Fields.RoundTrip.{
  All, FitsProperties, Reads-count, Reads-flags, Reads-repeat, Reads-properties,
}
use cypher_lite.Record.Nodes.{
  consumed, serialize_node_record, read_node_record, deserialize_node_record, serialize_edge_record,
  read_edge_record, deserialize_edge_record,
}

length-put_words : (w : ℕ) (ns : List ℕ) → length (put_words w ns) ≡ length ns * w
length-put_words w [] = omega arith
length-put_words w (n ∷ ns) =
    omega
      (arith, length-append (to_le w n) (put_words w ns), length-to_le w n, length-put_words w ns)

abbrev pub Is32 : ℕ → Type 0
Is32 n = n < 2 ^ 32

module _ (bincode : Bincode) where
  -- A node record of its Rust types whose counts a `u16` holds.
  abbrev pub FitsNode : NodeRecord → Type 0
  FitsNode r =
      (r.node_id < 2 ^ 64)
      × (length (r.labels) < 2 ^ 16)
      × All Is32 (r.labels)
      × FitsProperties bincode (r.properties)

  -- What the bytes of a node record keep of it.
  abbrev pub stored_node : NodeRecord → NodeRecord
  stored_node r = record (r) { next_edge_id = none; overflow_page = none }

  abbrev pub FitsEdge : RelationshipRecord → Type 0
  FitsEdge r =
      (r.edge_id < 2 ^ 64)
      × (r.start_node < 2 ^ 64)
      × (r.end_node < 2 ^ 64)
      × (r.rel_type_id < 2 ^ 32)
      × FitsProperties bincode (r.properties)

  abbrev pub stored_edge : RelationshipRecord → RelationshipRecord
  stored_edge r = record (r) {
    direction = outgoing;
    next_out_edge = none;
    next_in_edge = none;
    start_is_subgraph = false;
    end_is_subgraph = false;
  }

  module _ (encodes : IsBincode bincode) where
    pub Reads-node :
        (r : NodeRecord) (deleted : Bool)
        → FitsNode r
        → Reads
            (read_node_record bincode)
            (serialize_node_record bincode r deleted)
            (stored_node r, deleted)
    unfolding read_node_record serialize_node_record
    Reads-node r deleted h =
        Reads-bind _ (Reads-read_uint 8 (r.node_id) (from_le-to_le_64 (r.node_id) (h.0))) (
          Reads-bind _ (Reads-flags deleted) (
            Reads-bind _ (Reads-count (length (r.labels)) (h.1)) (
              Reads-ensure _
                (omega (
                  arith,
                  length-append (put_words 4 (r.labels)) (put_properties bincode (r.properties)),
                  length-put_words 4 (r.labels),
                ))
                (Reads-bind _
                  (Reads-repeat (to_le 4) Is32 (λ n k. Reads-read_uint 4 n (from_le-to_le_32 n k))
                    (r.labels) (h.2))
                  (Reads-map _ (Reads-properties bincode encodes (r.properties) (h.3)))))))

    pub Reads-edge :
        (r : RelationshipRecord) (deleted : Bool)
        → FitsEdge r
        → Reads
            (read_edge_record bincode)
            (serialize_edge_record bincode r deleted)
            (stored_edge r, deleted)
    unfolding read_edge_record serialize_edge_record
    Reads-edge r deleted h =
        let word : (n : ℕ) → n < 2 ^ 64 → Reads (read_uint 8) (to_le 8 n) n =
          λ n k. Reads-read_uint 8 n (from_le-to_le_64 n k) in
        Reads-bind _ (word (r.edge_id) (h.0)) (
          Reads-bind _ (word (r.start_node) (h.1)) (
            Reads-bind _ (word (r.end_node) (h.2)) (
              Reads-bind _
                (Reads-read_uint 4 (r.rel_type_id) (from_le-to_le_32 (r.rel_type_id) (h.3)))
                (Reads-bind _ (Reads-flags deleted)
                  (Reads-map _ (Reads-properties bincode encodes (r.properties) (h.4)))))))

    -- If `bincode` reads back what it writes, a node record of its Rust types whose counts and property
    -- lengths a `u16` holds reads back from its bytes, whatever bytes follow, with its deletion flag and
    -- the number of its bytes; its first edge and its overflow page come back as none.
    pub deserialize_node_record-serialize_node_record :
        (r : NodeRecord) (deleted : Bool) (post : Bytes)
        → FitsNode r
        → deserialize_node_record bincode (serialize_node_record bincode r deleted ++ post)
          ≡ some (stored_node r, deleted, length (serialize_node_record bincode r deleted))
    unfolding deserialize_node_record
    deserialize_node_record-serialize_node_record r deleted post h =
        ap consumed (Reads-start post (Reads-node r deleted h))

    -- Under the same conditions an edge record reads back, whatever bytes follow, with its deletion flag
    -- and the number of its bytes, but as an outgoing edge between nodes with no next edges, whatever
    -- its direction, its chains and its subgraph marks were.
    pub deserialize_edge_record-serialize_edge_record :
        (r : RelationshipRecord) (deleted : Bool) (post : Bytes)
        → FitsEdge r
        → deserialize_edge_record bincode (serialize_edge_record bincode r deleted ++ post)
          ≡ some (stored_edge r, deleted, length (serialize_edge_record bincode r deleted))
    unfolding deserialize_edge_record
    deserialize_edge_record-serialize_edge_record r deleted post h =
        ap consumed (Reads-start post (Reads-edge r deleted h))
