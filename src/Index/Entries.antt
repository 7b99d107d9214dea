-- ===== src/Index/Entries.antt =====
-- crates/cypherlite-storage/src/index: the entries of a `PropertyIndex` (mod.rs) and of an
-- `EdgePropertyIndex` (edge_index.rs), in the order of their keys. The two are word for word the same.
use cypher_lite.Prelude.{
  ℕ, Bool, true, false, not, List, [], ◌∷◌, ◌++◌, ◌==◌, if◌then◌else◌, retain,
}
use cypher_lite.Core.{PropertyValue, NodeId, EdgeId}
use cypher_lite.Core.Result.{Result, ok, panic}
use cypher_lite.Index.{PropertyIndex, EdgePropertyIndex}
use cypher_lite.Index.Keys.{less, same, greater, cmp_key, same_key}

-- `BTreeMap<PropertyValueKey, Vec<_>>`
abbrev pub Tree : Type 0
Tree = List (PropertyValue × List ℕ)

-- `get(key).cloned().unwrap_or_default()`
unfoldable pub ids_of : PropertyValue → Tree → List ℕ
ids_of w [] = []
ids_of w ((v, ids) ∷ t) = if same_key v w then ids else ids_of w t

unfoldable pub has_key : PropertyValue → Tree → Bool
has_key w [] = false
has_key w ((v, ids) ∷ t) = if same_key v w then true else has_key w t

-- A write to the list of a key that is there
unfoldable pub modify_ids : (List ℕ → List ℕ) → PropertyValue → Tree → Tree
modify_ids f w [] = []
modify_ids f w ((v, ids) ∷ t) = if same_key v w then (v, f ids) ∷ t else (v, ids) ∷ modify_ids f w t

-- A key that is not there, at its place
unfoldable pub place_key : PropertyValue → ℕ → Tree → Tree
place_key w id [] = (w, id ∷ []) ∷ []
place_key w id ((v, ids) ∷ t) =
    let rest = place_key w id t in
    elim (cmp_key w v) [
      | greater ↦ (v, ids) ∷ rest
      | less ↦ (w, id ∷ []) ∷ (v, ids) ∷ t
      | same ↦ (w, id ∷ []) ∷ (v, ids) ∷ t
    ]

-- `remove(key)`
unfoldable pub remove_key : PropertyValue → Tree → Tree
remove_key w [] = []
remove_key w ((v, ids) ∷ t) = if same_key v w then remove_key w t else (v, ids) ∷ remove_key w t

-- `entry(key).or_default().push(id)`
unfoldable pub enter : PropertyValue → ℕ → Tree → Tree
enter w id t = if has_key w t then modify_ids (λ ids. ids ++ (id ∷ [])) w t else place_key w id t

abbrev pub others : ℕ → List ℕ → List ℕ
others id = retain (λ i. not (i == id))

abbrev pub is_empty : List ℕ → Bool
is_empty [] = true
is_empty (x ∷ xs) = false

unfoldable pub withdraw : PropertyValue → ℕ → Tree → Tree
withdraw w id t =
    let shorter = modify_ids (others id) w t in
    if has_key w t
    then (if is_empty (ids_of w shorter) then remove_key w shorter else shorter)
    else t

-- The ids of the entries whose keys are in the range
unfoldable pub ids_between : PropertyValue → PropertyValue → Tree → List ℕ
ids_between min max [] = []
ids_between min max ((v, ids) ∷ t) =
    let rest = ids_between min max t in
    elim (cmp_key v min) [
      | less ↦ rest
      | _ ↦ elim (cmp_key v max) [ greater ↦ rest | _ ↦ ids ++ rest ]
    ]

-- `range` of a `BTreeMap` panics if its start is greater than its end.
unfoldable pub range_ids : PropertyValue → PropertyValue → Tree → Result (List ℕ)
range_ids min max t = elim (cmp_key min max) [ greater ↦ panic | _ ↦ ok (ids_between min max t) ]

unfoldable pub insert : PropertyIndex → PropertyValue → NodeId → PropertyIndex
insert i value node_id = record { tree = enter value node_id i.tree }

unfoldable pub remove : PropertyIndex → PropertyValue → NodeId → PropertyIndex
remove i value node_id = record { tree = withdraw value node_id i.tree }

unfoldable pub lookup : PropertyIndex → PropertyValue → List NodeId
lookup i value = ids_of value i.tree

abbrev pub range : PropertyIndex → PropertyValue → PropertyValue → Result (List NodeId)
range i min max = range_ids min max i.tree

abbrev pub insert_edge : EdgePropertyIndex → PropertyValue → EdgeId → EdgePropertyIndex
insert_edge i value edge_id = record { tree = enter value edge_id i.tree }

abbrev pub remove_edge : EdgePropertyIndex → PropertyValue → EdgeId → EdgePropertyIndex
remove_edge i value edge_id = record { tree = withdraw value edge_id i.tree }

abbrev pub lookup_edge : EdgePropertyIndex → PropertyValue → List EdgeId
lookup_edge i value = ids_of value i.tree

abbrev pub range_edge : EdgePropertyIndex → PropertyValue → PropertyValue → Result (List EdgeId)
range_edge i min max = range_ids min max i.tree
