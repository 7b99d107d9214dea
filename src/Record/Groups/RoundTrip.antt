-- ===== src/Record/Groups/RoundTrip.antt =====
-- A subgraph record and a hyperedge record read back, whatever follows them (page/record_serialization.rs).
use cypher_lite.Prelude.{
  ℕ, ◌^◌, ◌<◌, ◌≡◌, refl, ap, Bool, Option, none, some, List, ◌++◌, arith, length, take,
  drop-append,
}
use cypher_lite.Core.{
  NodeId, SubgraphRecord, HyperEdgeRecord, GraphEntity, node, subgraph, hyper_edge, temporal_ref,
}
use cypher_lite.File.{Bytes}
use cypher_lite.Endian.{to_le, from_le, from_le-to_le_32, from_le-to_le_64}
use cypher_lite.Record.Reader.{read_uint}
use cypher_lite.Record.Reads.{
  Reads, Reads-read_uint, Reads-read_byte, Reads-bind, Reads-map, Reads-pure, Reads-start,
}
use cypher_lite.Record.Property.{Bincode}
use cypher_lite.Record.Property.RoundTrip.{IsBincode}
use cypher_lite.Record.Fields.RoundTrip.{
  All, FitsProperties, Reads-count, Reads-flags, Reads-repeat, Reads-properties,
}
use cypher_lite.Record.Nodes.{consumed}
use cypher_lite.Record.Groups.{
  put_anchor, anchor_if, read_anchor, serialize_graph_entity, deserialize_graph_entity,
  read_graph_entity, serialize_subgraph_record, read_subgraph_record, deserialize_subgraph_record,
  serialize_hyperedge_record, read_hyperedge_record, deserialize_hyperedge_record,
}

abbrev pub Is64 : ℕ → Type 0
Is64 n = n < 2 ^ 64

Reads-word : (n : ℕ) → Is64 n → Reads (read_uint 8) (to_le 8 n) n
Reads-word n k = Reads-read_uint 8 n (from_le-to_le_64 n k)

abbrev pub FitsAnchor : Option ℕ → Type 0
FitsAnchor none = Unit
FitsAnchor (some t) = Is64 t

Reads-anchor : (t : Option ℕ) → FitsAnchor t → Reads read_anchor (put_anchor t) t
unfolding read_anchor put_anchor anchor_if
Reads-anchor none h = Reads-bind _ (Reads-read_byte 0) (Reads-pure none)
Reads-anchor (some t) h = Reads-bind _ (Reads-read_byte 1) (Reads-map _ (Reads-word t h))

abbrev pub FitsEntity : GraphEntity → Type 0
FitsEntity (node n) = Is64 n
FitsEntity (subgraph n) = Is64 n
FitsEntity (hyper_edge n) = Is64 n
FitsEntity (temporal_ref n t) = Is64 n × Is64 t

first-word : (n : ℕ) (post : Bytes) → Is64 n → from_le (take 8 (to_le 8 n ++ post)) ≡ n
first-word n post h = from_le-to_le_64 n h

deserialize_graph_entity-serialize_graph_entity :
    (e : GraphEntity) (post : Bytes)
    → FitsEntity e
    → deserialize_graph_entity (serialize_graph_entity e ++ post)
      ≡ some (e, length (serialize_graph_entity e))
unfolding deserialize_graph_entity serialize_graph_entity
deserialize_graph_entity-serialize_graph_entity (node n) post h =
    rw (first-word n post h) (ground arith)
deserialize_graph_entity-serialize_graph_entity (subgraph n) post h =
    rw (first-word n post h) (ground arith)
deserialize_graph_entity-serialize_graph_entity (hyper_edge n) post h =
    rw (first-word n post h) (ground arith)
deserialize_graph_entity-serialize_graph_entity (temporal_ref n t) post (h, k) =
    rw (first-word n post h, first-word t post k) (ground arith)

Reads-entity :
    (e : GraphEntity) → FitsEntity e → Reads read_graph_entity (serialize_graph_entity e) e
unfolding read_graph_entity
Reads-entity e h = record {
  at = λ pre post.
      rw
        (
          drop-append (length pre) pre (serialize_graph_entity e ++ post) refl,
          deserialize_graph_entity-serialize_graph_entity e post h,
        )
        refl;
}

module _ (bincode : Bincode) where
  abbrev pub FitsSubgraph : SubgraphRecord → List NodeId → Type 0
  FitsSubgraph r members =
      Is64 (r.subgraph_id)
      × FitsAnchor (r.temporal_anchor)
      × (length members < 2 ^ 16)
      × All Is64 members
      × FitsProperties bincode (r.properties)

  abbrev pub FitsHyperEdge : HyperEdgeRecord → Type 0
  FitsHyperEdge r =
      Is64 (r.id)
      × (r.rel_type_id < 2 ^ 32)
      × (length (r.sources) < 2 ^ 16)
      × All FitsEntity (r.sources)
      × (length (r.targets) < 2 ^ 16)
      × All FitsEntity (r.targets)
      × FitsProperties bincode (r.properties)

  module _ (encodes : IsBincode bincode) where
    Reads-subgraph :
        (r : SubgraphRecord) (members : List NodeId) (deleted : Bool)
        → FitsSubgraph r members
        → Reads
            (read_subgraph_record bincode)
            (serialize_subgraph_record bincode r members deleted)
            ((r, members), deleted)
    unfolding read_subgraph_record serialize_subgraph_record
    Reads-subgraph r members deleted h = Reads-bind _ (Reads-word (r.subgraph_id) (h.0)) (
        Reads-bind _ (Reads-flags deleted) (
          Reads-bind _ (Reads-anchor (r.temporal_anchor) (h.1)) (
            Reads-bind _ (Reads-properties bincode encodes (r.properties) (h.4)) (
              Reads-bind _ (Reads-count (length members) (h.2))
                (Reads-map _ (Reads-repeat (to_le 8) Is64 Reads-word members (h.3)))))))

    Reads-hyperedge :
        (r : HyperEdgeRecord) (deleted : Bool)
        → FitsHyperEdge r
        → Reads
            (read_hyperedge_record bincode)
            (serialize_hyperedge_record bincode r deleted)
            (r, deleted)
    unfolding read_hyperedge_record serialize_hyperedge_record
    Reads-hyperedge r deleted h = Reads-bind _ (Reads-word (r.id) (h.0)) (
        Reads-bind _ (Reads-flags deleted) (
          Reads-bind _ (Reads-read_uint 4 (r.rel_type_id) (from_le-to_le_32 (r.rel_type_id) (h.1)))
            (Reads-bind _ (Reads-count (length (r.sources)) (h.2)) (
              Reads-bind _
                (Reads-repeat serialize_graph_entity FitsEntity Reads-entity (r.sources) (h.3))
                (Reads-bind _ (Reads-count (length (r.targets)) (h.4)) (
                  Reads-bind _
                    (Reads-repeat serialize_graph_entity FitsEntity Reads-entity (r.targets) (h.5))
                    (Reads-map _ (Reads-properties bincode encodes (r.properties) (h.6)))))))))

    -- If `bincode` reads back what it writes, a subgraph record and its members, of their Rust types and
    -- with counts and property lengths that a `u16` holds, read back whole from their bytes, whatever
    -- bytes follow, with the deletion flag and the number of the bytes.
    pub deserialize_subgraph_record-serialize_subgraph_record :
        (r : SubgraphRecord) (members : List NodeId) (deleted : Bool) (post : Bytes)
        → FitsSubgraph r members
        → deserialize_subgraph_record bincode
            (serialize_subgraph_record bincode r members deleted ++ post)
          ≡ some
              ((r, members), deleted, length (serialize_subgraph_record bincode r members deleted))
    unfolding deserialize_subgraph_record
    deserialize_subgraph_record-serialize_subgraph_record r members deleted post h =
        ap consumed (Reads-start post (Reads-subgraph r members deleted h))

    -- If `bincode` reads back what it writes, a hyperedge record of its Rust types, with counts and
    -- property lengths that a `u16` holds, reads back whole from its bytes, whatever bytes follow, with
    -- the deletion flag and the number of the bytes.
    pub deserialize_hyperedge_record-serialize_hyperedge_record :
        (r : HyperEdgeRecord) (deleted : Bool) (post : Bytes)
        → FitsHyperEdge r
        → deserialize_hyperedge_record bincode
            (serialize_hyperedge_record bincode r deleted ++ post)
          ≡ some (r, deleted, length (serialize_hyperedge_record bincode r deleted))
    unfolding deserialize_hyperedge_record
    deserialize_hyperedge_record-serialize_hyperedge_record r deleted post h =
        ap consumed (Reads-start post (Reads-hyperedge r deleted h))
