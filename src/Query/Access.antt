-- ===== src/Query/Access.antt =====
-- crates/cypherlite-query/src/executor/eval.rs: the properties of entities, now and at a time.
use cypher_lite.Prelude.{
  ℕ, ◌%◌, ◌^◌, Bool, true, false, Option, none, some, List, [], ◌∷◌, leb, ◌==◌, if◌then◌else◌,
}
use cypher_lite.Core
use cypher_lite.Core.{NodeId, NodeRecord, PropertyValue, Properties, SubgraphRecord}
use cypher_lite.Catalog.{Name, same_name, Catalog, id_by_name}
use cypher_lite.Btree.NodeStore.{NodeStore, get_node}
use cypher_lite.Btree.EdgeStore.{EdgeStore, get_edge}
use cypher_lite.Subgraph
use cypher_lite.Subgraph.{SubgraphStore}
use cypher_lite.HyperEdge
use cypher_lite.HyperEdge.{HyperEdgeStore}
use cypher_lite.Version
use cypher_lite.Version.{VersionStore, VersionRecord, get_version_chain}
use cypher_lite.Query.Value.{
  Value, Values, nil, cons, null, int64, list, node, edge, subgraph, hyperedge, temporal_node,
  Outcome, ok, error, from_property,
}
use cypher_lite.Query.Integer.{order}

-- The parts of the storage engine that an evaluation reads.
pub record Engine : Type 0 where
  pub nodes : NodeStore
  pub edges : EdgeStore
  pub subgraphs : SubgraphStore
  pub hyperedges : HyperEdgeStore
  pub versions : VersionStore
  pub catalog : Catalog

-- The loop over `properties`.
abbrev pub value_of : ℕ → Properties → Value
value_of key [] = null
value_of key ((k, v) ∷ ps) = if k == key then from_property v else value_of key ps

-- `catalog().prop_key_id(prop_name)`, and the value under that key
abbrev pub value_named : Engine → Name → Properties → Value
value_named engine name ps = elim (id_by_name engine.catalog.prop_keys name) [
  | none ↦ null
  | some key ↦ value_of key ps
]

-- A pair of a key and a value, in the list of a version.
abbrev temporal_pair : ℕ → Value → Option Value
temporal_pair key (list (cons (int64 k) (cons v nil))) = if k % 2 ^ 32 == key then some v else none
temporal_pair key _ = none

abbrev temporal_value : ℕ → Values → Value
temporal_value key nil = null
temporal_value key (cons item items) = elim (temporal_pair key item) [
  | none ↦ temporal_value key items
  | some v ↦ v
]

unfoldable pub eval_temporal_property_access : Engine → Values → Name → Outcome Value
eval_temporal_property_access engine props name = elim (id_by_name engine.catalog.prop_keys name) [
  | none ↦ ok null
  | some key ↦ ok (temporal_value key props)
]

-- The time of a property value.
abbrev millis : PropertyValue → Option ℕ
millis (Core.date_time ms) = some ms
millis (Core.int64 ms) = some ms
millis _ = none

-- Whether the first time under the key is not after `timestamp`.
abbrev is_before : ℕ → ℕ → Properties → Bool
is_before key timestamp [] = false
is_before key timestamp ((k, v) ∷ ps) =
    let rest = is_before key timestamp ps in
    if k == key
    then elim (millis v) [ none ↦ rest | some ms ↦ leb (order ms) (order timestamp) ]
    else rest

-- Without the key of update times, every version will do.
abbrev is_candidate : Option ℕ → ℕ → Properties → Bool
is_candidate none timestamp ps = true
is_candidate (some key) timestamp ps = is_before key timestamp ps

-- The last candidate of the chain.
abbrev best_version :
    Option ℕ → ℕ → Option NodeRecord → List (ℕ × VersionRecord) → Option NodeRecord
best_version key timestamp best [] = best
best_version key timestamp best ((seq, Version.relationship r) ∷ chain) =
    best_version key timestamp best chain
best_version key timestamp best ((seq, Version.node r) ∷ chain) =
    best_version key timestamp (if is_candidate key timestamp r.properties then some r else best)
      chain

-- "_updated_at"
abbrev updated_at : Name
updated_at = 95 ∷ 117 ∷ 112 ∷ 100 ∷ 97 ∷ 116 ∷ 101 ∷ 100 ∷ 95 ∷ 97 ∷ 116 ∷ []

abbrev current_value : Engine → NodeId → ℕ → Outcome Value
current_value engine nid key = elim (get_node engine.nodes nid) [
  | none ↦ error "node not found" (nid ∷ [])
  | some r ↦ ok (value_of key r.properties)
]

unfoldable pub resolve_temporal_node_property : Engine → NodeId → ℕ → Name → Outcome Value
resolve_temporal_node_property engine nid timestamp name =
    let chain = get_version_chain engine.versions nid in
    let updated_key = id_by_name engine.catalog.prop_keys updated_at in
    let best = best_version updated_key timestamp none chain in
    elim (id_by_name engine.catalog.prop_keys name) [
      | none ↦ ok null
      | some key ↦ elim best [
        | none ↦ current_value engine nid key
        | some r ↦ ok (value_of key r.properties)
      ]
    ]

-- "_temporal_anchor"
abbrev temporal_anchor_name : Name
temporal_anchor_name =
    95 ∷ 116 ∷ 101 ∷ 109 ∷ 112 ∷ 111 ∷ 114 ∷ 97 ∷ 108 ∷ 95 ∷ 97 ∷ 110 ∷ 99 ∷ 104 ∷ 111 ∷ 114 ∷ []

abbrev anchor_value : Option ℕ → Value
anchor_value none = null
anchor_value (some ms) = int64 ms

unfoldable pub eval_property_access : Engine → Value → Name → Outcome Value
eval_property_access engine (node nid) name = elim (get_node engine.nodes nid) [
  | none ↦ error "node not found" (nid ∷ [])
  | some r ↦ ok (value_named engine name r.properties)
]
eval_property_access engine (edge eid) name = elim (get_edge engine.edges eid) [
  | none ↦ error "edge not found" (eid ∷ [])
  | some r ↦ ok (value_named engine name r.properties)
]
eval_property_access engine (subgraph sid) name = elim (Subgraph.get engine.subgraphs sid) [
  | none ↦ error "subgraph not found" (sid ∷ [])
  | some r ↦ ok (
      if same_name name temporal_anchor_name
      then anchor_value r.temporal_anchor
      else value_named engine name r.properties)
]
eval_property_access engine (hyperedge hid) name = elim (HyperEdge.get engine.hyperedges hid) [
  | none ↦ error "hyperedge not found" (hid ∷ [])
  | some r ↦ ok (value_named engine name r.properties)
]
eval_property_access engine (temporal_node nid timestamp) name =
    resolve_temporal_node_property engine nid timestamp name
eval_property_access engine null name = ok null
eval_property_access engine _ name = error "cannot access property on non-entity value" name
