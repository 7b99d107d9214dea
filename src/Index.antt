-- ===== src/Index.antt =====
-- crates/cypherlite-storage/src/index: which indexes there are (`IndexManager` of mod.rs and
-- `EdgeIndexManager` of edge_index.rs). Keys and Entries have the entries of an index. A hash map is a
-- list of its entries.
pub mod Definitions
pub mod Keys
pub mod Entries
pub mod Lookup
pub mod Writes
use cypher_lite.Prelude.{
  ℕ, Bool, true, false, not, ◌&&◌, Option, none, some, List, [], ◌∷◌, ◌==◌, if◌then◌else◌, map,
}
use cypher_lite.Core.{PropertyValue, NodeId, EdgeId, constraint_violation}
use cypher_lite.Core.Result.{Result, Done, ok, err}
use cypher_lite.Catalog.{Name, same_name, IndexDefinition}

-- A hash map from names.
abbrev pub NameMap : Type 0 → Type 0
NameMap V = List (Name × V)

module _ {V : Type 0} where
  -- `get`, and `contains_key` as whether it finds something
  unfoldable pub find_name : Name → NameMap V → Option V
  find_name n [] = none
  find_name n ((m, v) ∷ vs) = if same_name m n then some v else find_name n vs

  -- `remove`
  unfoldable pub remove_name : Name → NameMap V → NameMap V
  remove_name n [] = []
  remove_name n ((m, v) ∷ vs) =
      if same_name m n then remove_name n vs else (m, v) ∷ remove_name n vs

  -- `values().find(p)`
  unfoldable pub find_value : (V → Bool) → NameMap V → Option V
  find_value p [] = none
  find_value p ((m, v) ∷ vs) = if p v then some v else find_value p vs

pub record PropertyIndex : Type 0 where
  pub tree : List (PropertyValue × List NodeId)

abbrev pub new_property_index : PropertyIndex
new_property_index = record { tree = [] }

pub record IndexManager : Type 0 where
  pub indexes : NameMap (IndexDefinition × PropertyIndex)

unfoldable pub create_index : IndexManager → Name → ℕ → ℕ → Result Done × IndexManager
create_index m name label_id prop_key_id = elim (find_name name m.indexes) [
  | some v ↦ (err (constraint_violation "index '" name "' already exists"), m)
  | none ↦
      let def : IndexDefinition = record {
        name = name;
        label_id = label_id;
        prop_key_id = prop_key_id;
      } in
      (ok tt, record { indexes = (name, (def, new_property_index)) ∷ m.indexes })
]

unfoldable pub drop_index : IndexManager → Name → Result Done × IndexManager
drop_index m name =
    let left : IndexManager = record { indexes = remove_name name m.indexes } in
    elim (find_name name m.indexes) [
      | none ↦ (err (constraint_violation "index '" name "' does not exist"), left)
      | some v ↦ (ok tt, left)
    ]

-- Of several indexes for the same property, the source takes any.
unfoldable pub find_index : IndexManager → ℕ → ℕ → Option (IndexDefinition × PropertyIndex)
find_index m label_id prop_key_id =
    find_value (λ v. v.0.label_id == label_id && v.0.prop_key_id == prop_key_id) m.indexes

unfoldable pub definitions : IndexManager → List IndexDefinition
definitions m = map (λ e. e.1.0) m.indexes

-- edge_index.rs
pub record EdgeIndexDefinition : Type 0 where
  pub name : Name
  pub rel_type_id : ℕ
  pub prop_key_id : ℕ

pub record EdgePropertyIndex : Type 0 where
  pub tree : List (PropertyValue × List EdgeId)

abbrev pub new_edge_property_index : EdgePropertyIndex
new_edge_property_index = record { tree = [] }

pub record EdgeIndexManager : Type 0 where
  pub indexes : NameMap (EdgeIndexDefinition × EdgePropertyIndex)

unfoldable pub create_edge_index : EdgeIndexManager → Name → ℕ → ℕ → Result Done × EdgeIndexManager
create_edge_index m name rel_type_id prop_key_id = elim (find_name name m.indexes) [
  | some v ↦ (err (constraint_violation "edge index '" name "' already exists"), m)
  | none ↦
      let def : EdgeIndexDefinition = record {
        name = name;
        rel_type_id = rel_type_id;
        prop_key_id = prop_key_id;
      } in
      (ok tt, record { indexes = (name, (def, new_edge_property_index)) ∷ m.indexes })
]

unfoldable pub drop_edge_index : EdgeIndexManager → Name → Result Done × EdgeIndexManager
drop_edge_index m name =
    let left : EdgeIndexManager = record { indexes = remove_name name m.indexes } in
    elim (find_name name m.indexes) [
      | none ↦ (err (constraint_violation "edge index '" name "' does not exist"), left)
      | some v ↦ (ok tt, left)
    ]

unfoldable pub find_edge_index :
    EdgeIndexManager → ℕ → ℕ → Option (EdgeIndexDefinition × EdgePropertyIndex)
find_edge_index m rel_type_id prop_key_id =
    find_value (λ v. v.0.rel_type_id == rel_type_id && v.0.prop_key_id == prop_key_id) m.indexes

unfoldable pub edge_definitions : EdgeIndexManager → List EdgeIndexDefinition
edge_definitions m = map (λ e. e.1.0) m.indexes
