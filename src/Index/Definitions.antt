-- ===== src/Index/Definitions.antt =====
-- Creating and dropping an index.
use cypher_lite.Prelude.{ℕ, ◌≡◌, ◌∙◌, refl, ap, none, some, [], ◌∷◌, Bool-cases, inl, inr}
use cypher_lite.Core.Result.{ok}
use cypher_lite.Catalog.{IndexDefinition, Name, same_name}
use cypher_lite.Catalog.Names.{same_name_refl}
use cypher_lite.Index.{
  new_property_index, NameMap, find_name, remove_name, IndexManager, create_index, drop_index,
}

-- Removing a name that is not there changes nothing.
remove_name-absent :
    {V : Type 0} (n : Name) (vs : NameMap V) → find_name n vs ≡ none → remove_name n vs ≡ vs
unfolding find_name remove_name
remove_name-absent n [] h = refl
remove_name-absent n ((m, v) ∷ vs) h = elim (Bool-cases (same_name m n)) [
  | inl same ↦ let clash : some v ≡ none = rw same at h in cc
  | inr other ↦
      let rest : find_name n vs ≡ none = rw other at h in
      rw other (ap (λ r. (m, v) ∷ r) (remove_name-absent n vs rest))
]

-- An index of a name that is not there can be created, and dropping it then gives the manager of
-- before.
pub drop_index-create_index :
    (m : IndexManager) (n : Name) (label_id prop_key_id : ℕ)
    → find_name n m.indexes ≡ none
    → ((create_index m n label_id prop_key_id).0 ≡ ok tt)
      × (drop_index (create_index m n label_id prop_key_id).1 n ≡ (ok tt, m))
unfolding find_name remove_name
drop_index-create_index m n label_id prop_key_id absent =
    let def : IndexDefinition = record {
      name = n;
      label_id = label_id;
      prop_key_id = prop_key_id;
    } in
    let with_index : IndexManager = record {
      indexes = (n, (def, new_property_index)) ∷ m.indexes;
    } in
    let created : create_index m n label_id prop_key_id ≡ (ok tt, with_index) =
      unfold create_index in rw (create_index, absent) refl in
    let removed : remove_name n with_index.indexes ≡ m.indexes =
      rw (remove_name, same_name_refl n) (remove_name-absent n m.indexes absent) in
    let there : find_name n with_index.indexes ≡ some (def, new_property_index) =
      rw (find_name, same_name_refl n) refl in
    let dropped : drop_index with_index n ≡ (ok tt, m) =
      unfold drop_index in rw (drop_index, there) (λ i. (ok tt, record { indexes = removed i })) in
    (ap (λ o. o.0) created, ap (λ o. drop_index o.1 n) created ∙ dropped)
