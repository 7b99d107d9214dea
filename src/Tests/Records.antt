-- ===== src/Tests/Records.antt =====
-- The codecs of records and the data pages on concrete records.
use cypher_lite.Prelude.{
  ℕ, ◌+◌, ◌≡◌, refl, ap, true, false, none, some, Option, List, [], ◌∷◌, ◌++◌, arith, length, drop,
  map, replicate, length-replicate, if◌then◌else◌, ltb,
}
use cypher_lite.Core.{
  PropertyValues, nil, cons, null, bool, int64, float64, string, bytes, array, date_time,
  NodeRecord, SubgraphRecord, HyperEdgeRecord, subgraph, hyper_edge, temporal_ref, node,
}
use cypher_lite.File.{Bytes}
use cypher_lite.Wal.Format.{page_size}
use cypher_lite.Version
use cypher_lite.Version.{VersionRecord}
use cypher_lite.Record.Property.{Bincode, serialize_property, serialize_value, is_inline}
use cypher_lite.Record.Property.Utf8.{is_utf8}
use cypher_lite.Record.Property.RoundTrip.{IsBincode}
use cypher_lite.Record.Fields.{put_property, put_properties}
use cypher_lite.Record.Nodes.{serialize_node_record}
use cypher_lite.Record.Versions.{serialize_version_record, deserialize_version_record}
use cypher_lite.Record.Versions.RoundTrip.{
  FitsVersion, stored_version, deserialize_version_record-serialize_version_record,
}
use cypher_lite.Record.Groups.{
  serialize_subgraph_record, deserialize_subgraph_record, serialize_hyperedge_record,
  deserialize_hyperedge_record,
}
use cypher_lite.Record.Groups.RoundTrip.{
  FitsSubgraph, FitsHyperEdge, deserialize_subgraph_record-serialize_subgraph_record,
  deserialize_hyperedge_record-serialize_hyperedge_record,
}
use cypher_lite.Record.DataPage.{pack_record_into_page, read_records_from_page}
use cypher_lite.Record.DataPage.Layout.{data_page}
use cypher_lite.Record.DataPage.Packing.{pack_record_into_page-data_page}
use cypher_lite.Record.DataPage.Reading.{slice, read_records_from_page-data_page}

-- An encoder of the arrays of nulls alone: a byte for every element.
abbrev grown : Option Bytes → Option Bytes
grown none = none
grown (some bs) = some (1 ∷ bs)

abbrev encode : PropertyValues → Option Bytes
encode nil = some []
encode (cons null vs) = grown (encode vs)
encode (cons (bool b) vs) = none
encode (cons (int64 n) vs) = none
encode (cons (float64 n) vs) = none
encode (cons (string s) vs) = none
encode (cons (bytes b) vs) = none
encode (cons (array a) vs) = none
encode (cons (date_time n) vs) = none

abbrev decode : Bytes → Option PropertyValues
decode [] = some nil
decode (b ∷ bs) = elim (decode bs) [ none ↦ none | some vs ↦ some (cons null vs) ]

abbrev nulls_only : Bincode
nulls_only = record { serialize = encode; deserialize = decode }

grown-some :
    (o : Option Bytes) (bs : Bytes)
    → grown o ≡ some bs
    → (cs : Bytes) × (o ≡ some cs) × (bs ≡ 1 ∷ cs)
grown-some none bs h = cc
grown-some (some cs) bs h = (cs, refl, cc)

nulls_only-IsBincode : IsBincode nulls_only
nulls_only-IsBincode nil bs h = let e : bs ≡ [] = cc in ap decode e
nulls_only-IsBincode (cons null vs) bs h =
    let (cs, e, f) = grown-some (encode vs) bs h in
    let back : decode cs ≡ some vs = nulls_only-IsBincode vs cs e in rw (f, decode, back) refl
nulls_only-IsBincode (cons (bool b) vs) bs h = cc
nulls_only-IsBincode (cons (int64 n) vs) bs h = cc
nulls_only-IsBincode (cons (float64 n) vs) bs h = cc
nulls_only-IsBincode (cons (string s) vs) bs h = cc
nulls_only-IsBincode (cons (bytes b) vs) bs h = cc
nulls_only-IsBincode (cons (array a) vs) bs h = cc
nulls_only-IsBincode (cons (date_time n) vs) bs h = cc

-- "é", a lone continuation byte, and a surrogate.
is_utf8_text :
    (is_utf8 (195 ∷ 169 ∷ []) ≡ true)
    × (is_utf8 (169 ∷ []) ≡ false)
    × (is_utf8 (237 ∷ 160 ∷ 128 ∷ []) ≡ false)
unfolding is_utf8
is_utf8_text = (refl, refl, refl)

is_inline_text :
    (is_inline nulls_only (string (replicate 31 97)) ≡ true)
    × (is_inline nulls_only (string (replicate 32 97)) ≡ false)
unfolding is_inline serialize_value replicate
is_inline_text = (refl, refl)

-- A person with a name and an array.
abbrev person : NodeRecord
person = record {
  node_id = 7;
  labels = 1 ∷ 2 ∷ [];
  properties = (3, string (65 ∷ 66 ∷ [])) ∷ (4, array (cons null nil)) ∷ [];
  next_edge_id = some 5;
  overflow_page = none;
}

person_fits : FitsVersion nulls_only (Version.node person)
unfolding serialize_node_record put_properties put_property serialize_property serialize_value
person_fits = (
  (
    omega arith,
    omega arith,
    (omega arith, (omega arith, tt)),
    (
      omega arith,
      (
        (omega arith, unfold is_utf8 in refl, omega arith),
        ((omega arith, (1 ∷ [], refl), omega arith), tt),
      ),
    ),
  ),
  omega arith,
)

deserialize_version_record-serialize_version_record_example :
    deserialize_version_record nulls_only
      (serialize_version_record nulls_only 7 1 (Version.node person) ++ (9 ∷ []))
    ≡ some (
      (7, 1, stored_version nulls_only (Version.node person)),
      length (serialize_version_record nulls_only 7 1 (Version.node person)),
    )
deserialize_version_record-serialize_version_record_example =
    deserialize_version_record-serialize_version_record nulls_only nulls_only-IsBincode 7 1
      (Version.node person) (9 ∷ []) (omega arith, omega arith) person_fits

abbrev group : SubgraphRecord
group = record { subgraph_id = 1; temporal_anchor = some 1000; properties = (3, bool true) ∷ [] }

group_fits : FitsSubgraph nulls_only group (7 ∷ 8 ∷ [])
unfolding serialize_property serialize_value
group_fits = (
  omega arith,
  omega arith,
  omega arith,
  (omega arith, (omega arith, tt)),
  (omega arith, ((omega arith, tt, omega arith), tt)),
)

deserialize_subgraph_record-serialize_subgraph_record_example :
    deserialize_subgraph_record nulls_only
      (serialize_subgraph_record nulls_only group (7 ∷ 8 ∷ []) false ++ [])
    ≡ some (
      (group, 7 ∷ 8 ∷ []),
      false,
      length (serialize_subgraph_record nulls_only group (7 ∷ 8 ∷ []) false),
    )
deserialize_subgraph_record-serialize_subgraph_record_example =
    deserialize_subgraph_record-serialize_subgraph_record nulls_only nulls_only-IsBincode group
      (7 ∷ 8 ∷ []) false [] group_fits

abbrev meeting : HyperEdgeRecord
meeting = record {
  id = 1;
  rel_type_id = 2;
  sources = node 7 ∷ temporal_ref 8 1000 ∷ [];
  targets = subgraph 1 ∷ hyper_edge 3 ∷ [];
  properties = [];
}

meeting_fits : FitsHyperEdge nulls_only meeting
meeting_fits = (
  omega arith,
  omega arith,
  omega arith,
  (omega arith, ((omega arith, omega arith), tt)),
  omega arith,
  (omega arith, (omega arith, tt)),
  (omega arith, tt),
)

deserialize_hyperedge_record-serialize_hyperedge_record_example :
    deserialize_hyperedge_record nulls_only
      (serialize_hyperedge_record nulls_only meeting true ++ [])
    ≡ some (meeting, true, length (serialize_hyperedge_record nulls_only meeting true))
deserialize_hyperedge_record-serialize_hyperedge_record_example =
    deserialize_hyperedge_record-serialize_hyperedge_record nulls_only nulls_only-IsBincode meeting
      true [] meeting_fits

-- A page with one record.
abbrev some_records : List Bytes
some_records = (1 ∷ 2 ∷ 3 ∷ []) ∷ []

abbrev free_bytes : Bytes
free_bytes = replicate 4079 0

length-page : length (data_page 1 0 some_records free_bytes) ≡ page_size
length-page = omega (arith, length-replicate {A = ℕ} 4079 0)

pack_record_into_page-data_page_example :
    pack_record_into_page (data_page 1 0 some_records free_bytes) (4 ∷ []) ≡ (
      if ltb (length free_bytes) (2 + length {A = ℕ} (4 ∷ []))
      then (false, data_page 1 0 some_records free_bytes)
      else (true, data_page 1 0 (some_records ++ ((4 ∷ []) ∷ [])) (drop 3 free_bytes)))
pack_record_into_page-data_page_example =
    pack_record_into_page-data_page 1 0 some_records free_bytes (4 ∷ []) length-page (omega arith)

read_records_from_page-data_page_example :
    map
      (slice (data_page 1 0 some_records free_bytes))
      (read_records_from_page (data_page 1 0 some_records free_bytes))
    ≡ some_records
read_records_from_page-data_page_example =
    read_records_from_page-data_page 1 0 some_records free_bytes length-page (omega arith)
