-- ===== src/Btree/DeletionOfAll.antt =====
-- Deleting every relationship of a node.
use cypher_lite.Prelude.{
  ℕ, ◌≤◌, ◌≡◌, refl, sym, ap, ◌∙◌, Bool, false, Option, none, some, List, [], ◌∷◌, arith, map,
  contains, if◌then◌else◌, Bool-cases, inl, inr,
}
use cypher_lite.Core.{RelationshipRecord, EdgeId, NodeId}
use cypher_lite.Core.Result.{ok}
use cypher_lite.OrdMap.{OrdMap, get, remove, values_where}
use cypher_lite.OrdMap.Laws.{get-remove}
use cypher_lite.OrdMap.Sorted.{Above, IsSorted}
use cypher_lite.Btree.EdgeStore.{
  Stores, get_edge, touches, get_edges_for_node, delete_edge, delete_edges, delete_edges_for_node,
}
use cypher_lite.Btree.Deletion.{without, delete_edge-cases}

-- The edge store keeps every record under its id.
abbrev pub IsKeyed : OrdMap RelationshipRecord → Type 0
IsKeyed [] = Unit
IsKeyed ((k, r) ∷ m) = (r.edge_id ≡ k) × IsKeyed m

abbrev ids : List RelationshipRecord → List EdgeId
ids rs = map (λ r. r.edge_id) rs

-- Whether a lookup found a record that passes the test.
abbrev pub found_and : (RelationshipRecord → Bool) → Option RelationshipRecord → Bool
found_and p none = false
found_and p (some r) = p r

get-Above : (j k : ℕ) (m : OrdMap RelationshipRecord) → Above j m → k ≤ j → get k m ≡ none
unfolding get
get-Above j k [] a le = refl
get-Above j k ((i, r) ∷ m) a le = ground (arith, get-Above j k m)

contains-ids :
    (p : RelationshipRecord → Bool) (m : OrdMap RelationshipRecord) (k : ℕ)
    → IsKeyed m
    → IsSorted m
    → contains (ids (values_where p m)) k ≡ found_and p (get k m)
unfolding values_where get
contains-ids p [] k keyed sorted = refl
contains-ids p ((j, r) ∷ m) k keyed sorted = ground (arith, contains-ids p m k, get-Above j k m)

-- The records stand in the store, each once.
AllIn : OrdMap RelationshipRecord → List RelationshipRecord → Type 0
AllIn m [] = Unit
AllIn m (r ∷ rs) = (get r.edge_id m ≡ some r) × (contains (ids rs) r.edge_id ≡ false) × AllIn m rs

AllIn-remove :
    (id : EdgeId) (m : OrdMap RelationshipRecord) (rs : List RelationshipRecord)
    → contains (ids rs) id ≡ false
    → AllIn m rs
    → AllIn (remove id m) rs
unfolding AllIn
AllIn-remove id m [] other all = tt
AllIn-remove id m (r ∷ rs) other all =
    ground (arith, AllIn-remove id m rs, get-remove id r.edge_id m)

AllIn-cons :
    (j : ℕ) (v : RelationshipRecord) (m : OrdMap RelationshipRecord) (rs : List RelationshipRecord)
    → contains (ids rs) j ≡ false
    → AllIn m rs
    → AllIn ((j, v) ∷ m) rs
unfolding AllIn get
AllIn-cons j v m [] other all = tt
AllIn-cons j v m (r ∷ rs) other all = ground (arith, AllIn-cons j v m rs)

head_found :
    (j : ℕ) (r : RelationshipRecord) (m : OrdMap RelationshipRecord)
    → r.edge_id ≡ j
    → get r.edge_id ((j, r) ∷ m) ≡ some r
unfolding get
head_found j r m e = ground arith

AllIn-values_where :
    (p : RelationshipRecord → Bool) (m : OrdMap RelationshipRecord)
    → IsKeyed m
    → IsSorted m
    → AllIn m (values_where p m)
unfolding AllIn values_where
AllIn-values_where p [] keyed sorted = tt
AllIn-values_where p ((j, r) ∷ m) keyed sorted =
    let rs = values_where p m in
    let rest = AllIn-values_where p m keyed.1 sorted.1 in
    let absent : contains (ids rs) j ≡ false =
      ground (arith, contains-ids p m j keyed.1 sorted.1, get-Above j j m sorted.0) in
    let below = AllIn-cons j r m rs absent rest in
    elim (Bool-cases (p r)) [
      | inr left_out ↦ rw left_out below
      | inl taken ↦
          rw taken (head_found j r m keyed.0, ap (contains (ids rs)) keyed.0 ∙ absent, below)
    ]

-- One deletion removes one edge, whatever its outcome.
delete_edge-edges : (s : Stores) (id : EdgeId) → (delete_edge s id).1.edges ≡ without s.edges id
delete_edge-edges s id = elim (delete_edge-cases s id) [
  | inl (missing, (nodes, e)) ↦ rw e refl
  | inr (r, found, (nodes, e)) ↦ rw e refl
]

get-delete_edges :
    (s : Stores) (is : List EdgeId) (k : EdgeId)
    → get_edge (delete_edges s is).1.edges k ≡ (if contains is k then none else get_edge s.edges k)
unfolding delete_edges get_edge
get-delete_edges s [] k = refl
get-delete_edges s (i ∷ is) k =
    let rest = get-delete_edges (delete_edge s i).1 is k in
    ground (
      arith,
      rest,
      ap (λ t. get k t.tree.entries) (delete_edge-edges s i),
      get-remove i k s.edges.tree.entries,
    )

delete_edges-cons :
    (s s' : Stores) (i : EdgeId) (is : List EdgeId) (r : RelationshipRecord)
    → delete_edge s i ≡ (ok r, s')
    → (delete_edges s (i ∷ is)).0 ≡ r ∷ (delete_edges s' is).0
unfolding delete_edges
delete_edges-cons s s' i is r e =
    ap
      (λ o. elim o.0 as (λ x. List RelationshipRecord) [
        | ok x ↦ x ∷ (delete_edges o.1 is).0
        | _ ↦ (delete_edges o.1 is).0
      ])
      e

-- Edges that are there are all returned, in the order of the ids.
delete_edges-AllIn :
    (s : Stores) (rs : List RelationshipRecord)
    → AllIn s.edges.tree.entries rs
    → (delete_edges s (ids rs)).0 ≡ rs
unfolding delete_edges AllIn get_edge
delete_edges-AllIn s [] all = refl
delete_edges-AllIn s (r ∷ rs) all = elim (delete_edge-cases s r.edge_id) [
  | inl (missing, (nodes, e)) ↦ let clash = sym missing ∙ all.0 in cc
  | inr (old, found, (nodes, e)) ↦
      let same : old ≡ r = let q = sym found ∙ all.0 in cc in
      let rest : Stores = record { edges = without s.edges r.edge_id; nodes = nodes } in
      delete_edges-cons s rest r.edge_id (ids rs) old e
      ∙ (ap (λ x. x ∷ (delete_edges rest (ids rs)).0) same
          ∙ ap (λ xs. r ∷ xs)
              (delete_edges-AllIn rest rs
                (AllIn-remove r.edge_id s.edges.tree.entries rs all.1 all.2)))
]

-- In a store that keeps each record once and under its id, deleting the edges of a node returns those
-- that touch it, in the order of their ids; after it, no edge that touches the node is there, and every other edge is as before.
pub delete_edges_for_node-exact :
    (s : Stores) (n : NodeId)
    → IsKeyed s.edges.tree.entries
    → IsSorted s.edges.tree.entries
    → ((delete_edges_for_node s n).0 ≡ ok (get_edges_for_node s.edges n))
      × ((k : EdgeId)
          → get_edge (delete_edges_for_node s n).1.edges k
            ≡ (if found_and (touches n) (get_edge s.edges k) then none else get_edge s.edges k))
unfolding delete_edges_for_node get_edges_for_node get_edge get
delete_edges_for_node-exact s n keyed sorted =
    let rs = values_where (touches n) s.edges.tree.entries in
    (
      ap ok (
          delete_edges-AllIn s rs
            (AllIn-values_where (touches n) s.edges.tree.entries keyed sorted)),
      λ k.
          get-delete_edges s (ids rs) k
          ∙ ap (λ b. if b then none else get_edge s.edges k)
              (contains-ids (touches n) s.edges.tree.entries k keyed sorted),
    )
