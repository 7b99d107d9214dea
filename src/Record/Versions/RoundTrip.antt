-- ===== src/Record/Versions/RoundTrip.antt =====
-- A version record reads back, whatever follows it (page/record_serialization.rs).
use cypher_lite.Prelude.{
  ℕ, ◌^◌, ◌<◌, ◌≡◌, refl, sym, ap, ◌∙◌, false, some, [], ◌++◌, append-nil, length,
}
use cypher_lite.Core.{NodeRecord, RelationshipRecord}
use cypher_lite.File.{Bytes}
use cypher_lite.Endian.{from_le-to_le_64}
use cypher_lite.Version.{VersionRecord, node, relationship}
use cypher_lite.Record.Reads.{
  Reads, Reads-read_uint, Reads-read_byte, Reads-read_bytes, Reads-bind, Reads-last, Reads-lift,
  Reads-pure, Reads-start,
}
use cypher_lite.Record.Property.{Bincode}
use cypher_lite.Record.Property.RoundTrip.{IsBincode}
use cypher_lite.Record.Fields.RoundTrip.{Reads-count}
use cypher_lite.Record.Nodes.{
  serialize_node_record, deserialize_node_record, serialize_edge_record, deserialize_edge_record,
}
use cypher_lite.Record.Nodes.RoundTrip.{
  FitsNode, FitsEdge, stored_node, stored_edge, deserialize_node_record-serialize_node_record,
  deserialize_edge_record-serialize_edge_record,
}
use cypher_lite.Record.Versions.{
  put_version, serialize_version_record, version_at, read_version_record,
  deserialize_version_record,
}

module _ (bincode : Bincode) where
  -- A version of its Rust types whose bytes a `u16` counts.
  abbrev pub FitsVersion : VersionRecord → Type 0
  FitsVersion (node r) =
      FitsNode bincode r × (length (serialize_node_record bincode r false) < 2 ^ 16)
  FitsVersion (relationship r) =
      FitsEdge bincode r × (length (serialize_edge_record bincode r false) < 2 ^ 16)

  abbrev pub stored_version : VersionRecord → VersionRecord
  stored_version (node r) = node (stored_node bincode r)
  stored_version (relationship r) = relationship (stored_edge bincode r)

  module _ (encodes : IsBincode bincode) where
    node_slice :
        (r : NodeRecord)
        → FitsNode bincode r
        → deserialize_node_record bincode (serialize_node_record bincode r false)
          ≡ some (stored_node bincode r, false, length (serialize_node_record bincode r false))
    node_slice r h =
        ap (deserialize_node_record bincode)
          (sym (append-nil (serialize_node_record bincode r false)))
        ∙ deserialize_node_record-serialize_node_record bincode encodes r false [] h

    edge_slice :
        (r : RelationshipRecord)
        → FitsEdge bincode r
        → deserialize_edge_record bincode (serialize_edge_record bincode r false)
          ≡ some (stored_edge bincode r, false, length (serialize_edge_record bincode r false))
    edge_slice r h =
        ap (deserialize_edge_record bincode)
          (sym (append-nil (serialize_edge_record bincode r false)))
        ∙ deserialize_edge_record-serialize_edge_record bincode encodes r false [] h

    Reads-version :
        (e q : ℕ) (v : VersionRecord)
        → (e < 2 ^ 64) × (q < 2 ^ 64)
        → FitsVersion v
        → Reads
            (read_version_record bincode)
            (serialize_version_record bincode e q v)
            (e, q, stored_version v)
    unfolding read_version_record serialize_version_record put_version version_at
    Reads-version e q (node r) (he, hq) (h, k) =
        let b = serialize_node_record bincode r false in
        Reads-bind _ (Reads-read_uint 8 e (from_le-to_le_64 e he)) (
          Reads-bind _ (Reads-read_uint 8 q (from_le-to_le_64 q hq)) (
            Reads-bind _ (Reads-read_byte 0) (
              Reads-bind _ (Reads-count (length b) k) (
                Reads-last _ (Reads-read_bytes (length b) b refl) (
                  Reads-lift _ (rw (node_slice r h) refl)
                    (Reads-pure (e, q, stored_version (node r))))))))
    Reads-version e q (relationship r) (he, hq) (h, k) =
        let b = serialize_edge_record bincode r false in
        Reads-bind _ (Reads-read_uint 8 e (from_le-to_le_64 e he)) (
          Reads-bind _ (Reads-read_uint 8 q (from_le-to_le_64 q hq)) (
            Reads-bind _ (Reads-read_byte 1) (
              Reads-bind _ (Reads-count (length b) k) (
                Reads-last _ (Reads-read_bytes (length b) b refl) (
                  Reads-lift _ (rw (edge_slice r h) refl)
                    (Reads-pure (e, q, stored_version (relationship r))))))))

    -- If `bincode` reads back what it writes, a version record of its Rust types whose counts and
    -- lengths a `u16` holds reads back from its bytes, whatever bytes follow, with its entity, its
    -- sequence number and the number of its bytes: the version is the node or the edge as its own
    -- bytes keep it.
    pub deserialize_version_record-serialize_version_record :
        (e q : ℕ) (v : VersionRecord) (post : Bytes)
        → (e < 2 ^ 64) × (q < 2 ^ 64)
        → FitsVersion v
        → deserialize_version_record bincode (serialize_version_record bincode e q v ++ post)
          ≡ some ((e, q, stored_version v), length (serialize_version_record bincode e q v))
    unfolding deserialize_version_record
    deserialize_version_record-serialize_version_record e q v post h k =
        Reads-start post (Reads-version e q v h k)
