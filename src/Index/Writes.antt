-- ===== src/Index/Writes.antt =====
-- crates/cypherlite-storage/src/index: the writes that the managers of mod.rs and edge_index.rs pass on to
-- their indexes, through the references that `find_index_mut`, `get_index_mut` and `iter_mut` return.
use cypher_lite.Prelude.{Bool, ℕ, [], ◌∷◌, ◌==◌, ◌&&◌, if◌then◌else◌, map}
use cypher_lite.Catalog.{Name, same_name, IndexDefinition}
use cypher_lite.Index.{
  NameMap, PropertyIndex, IndexManager, EdgeIndexDefinition, EdgePropertyIndex, EdgeIndexManager,
}

-- A write to the second part of a pair
abbrev on_index : {D I : Type 0} → (I → I) → D × I → D × I
on_index f (def, idx) = (def, f idx)

-- `values_mut().find(p)`
abbrev modify_value : {V : Type 0} → (V → Bool) → (V → V) → NameMap V → NameMap V
modify_value p f [] = []
modify_value p f ((n, v) ∷ vs) = if p v then (n, f v) ∷ vs else (n, v) ∷ modify_value p f vs

-- `get_mut(name)`
abbrev modify_name : {V : Type 0} → Name → (V → V) → NameMap V → NameMap V
modify_name n f [] = []
modify_name n f ((m, v) ∷ vs) = if same_name m n then (m, f v) ∷ vs else (m, v) ∷ modify_name n f vs

abbrev pub find_index_mut : IndexManager → ℕ → ℕ → (PropertyIndex → PropertyIndex) → IndexManager
find_index_mut m label_id prop_key_id f = record {
  indexes =
      modify_value (λ v. v.0.label_id == label_id && v.0.prop_key_id == prop_key_id) (on_index f)
        m.indexes;
}

abbrev pub get_index_mut : IndexManager → Name → (PropertyIndex → PropertyIndex) → IndexManager
get_index_mut m name f = record { indexes = modify_name name (on_index f) m.indexes }

abbrev pub iter_mut :
    IndexManager → (IndexDefinition → PropertyIndex → PropertyIndex) → IndexManager
iter_mut m f = record { indexes = map (λ e. (e.0, (e.1.0, f e.1.0 e.1.1))) m.indexes }

abbrev pub find_edge_index_mut :
    EdgeIndexManager → ℕ → ℕ → (EdgePropertyIndex → EdgePropertyIndex) → EdgeIndexManager
find_edge_index_mut m rel_type_id prop_key_id f = record {
  indexes =
      modify_value (λ v. v.0.rel_type_id == rel_type_id && v.0.prop_key_id == prop_key_id)
        (on_index f) m.indexes;
}

abbrev pub iter_edges_mut :
    EdgeIndexManager
    → (EdgeIndexDefinition → EdgePropertyIndex → EdgePropertyIndex)
    → EdgeIndexManager
iter_edges_mut m f = record { indexes = map (λ e. (e.0, (e.1.0, f e.1.0 e.1.1))) m.indexes }
