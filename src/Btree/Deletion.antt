-- ===== src/Btree/Deletion.antt =====
-- Deleting relationships: of one, and of all that touch a node.
use cypher_lite.Prelude.{
  ◌≡◌, refl, Option, none, some, ◌==◌, Bool-cases, Option-cases, inl, inr, ◌⊎◌,
}
use cypher_lite.Core.{RelationshipRecord, EdgeId, NodeId, NodeRecord, edge_not_found}
use cypher_lite.Core.Result.{ok, err}
use cypher_lite.OrdMap.{get, remove}
use cypher_lite.Btree.Tree
use cypher_lite.Btree.Tree.{BTree}
use cypher_lite.Btree.NodeStore.{NodeStore, get_node, set_next_edge}
use cypher_lite.Btree.EdgeStore.{
  EdgeStore, Stores, set_head, get_edge, is_edge, unlink, delete_edge,
}

-- The edge store with one edge removed.
abbrev pub without : EdgeStore → EdgeId → EdgeStore
without s id = record s { tree = (Tree.delete s.tree id).1 }

set_head-edges : (s : Stores) (n : NodeId) (e : Option EdgeId) → (set_head s n e).1.edges ≡ s.edges
unfolding set_head
set_head-edges s n e = refl

-- The head of a node that is there can be set.
set_head-ok :
    (s : Stores) (n : NodeId) (e : Option EdgeId) (r : NodeRecord)
    → get_node s.nodes n ≡ some r
    → (set_head s n e).0 ≡ ok tt
unfolding set_head get_node set_next_edge
set_head-ok s n e r h = rw (set_next_edge, h) refl

-- An unlinking succeeds, whether or not the node is there.
unlink-ok :
    (s : Stores) (n : NodeId) (id : EdgeId) (next : Option EdgeId)
    → (nodes : NodeStore) × (unlink s n id next ≡ (ok tt, record s { nodes = nodes }))
unfolding unlink set_head
unlink-ok s n id next = elim (Option-cases (get_node s.nodes n)) [
  | inl missing ↦ (s.nodes, rw (unlink, missing) refl)
  | inr (r, found) ↦ elim (Bool-cases (is_edge r.next_edge_id id)) [
    | inl head ↦
        let done = set_head-ok s n next r found in
        (
          (set_head s n next).1.nodes,
          rw (unlink, found, head) (λ i. (done i, (set_head s n next).1)),
        )
    | inr other ↦ (s.nodes, rw (unlink, found, other) refl)
  ]
]

-- Both outcomes of a deletion, and what it leaves of the edges.
pub delete_edge-cases :
    (s : Stores) (id : EdgeId)
    → ((get_edge s.edges id ≡ none)
        × ((nodes : NodeStore) × (delete_edge s id
              ≡ (err (edge_not_found id), record { edges = without s.edges id; nodes = nodes }))))
      ⊎ ((r : RelationshipRecord) × (get_edge s.edges id ≡ some r)
          × ((nodes : NodeStore) × (delete_edge s id
                ≡ (ok r, record { edges = without s.edges id; nodes = nodes }))))
unfolding get_edge delete_edge remove
delete_edge-cases s id = elim (Option-cases (get id s.edges.tree.entries)) [
  | inl missing ↦ inl (missing, (s.nodes, rw (delete_edge, missing) refl))
  | inr (r, found) ↦
      let removed : Stores = record s { edges = without s.edges id } in
      let (one, start) = unlink-ok removed r.start_node id r.next_out_edge in
      elim (Bool-cases (r.start_node == r.end_node)) [
        | inl loop ↦ inr (r, found, (one, rw (delete_edge, found, start, loop) refl))
        | inr apart ↦
            let (two, end) =
              unlink-ok (record removed { nodes = one }) r.end_node id r.next_in_edge in
            inr (r, found, (two, rw (delete_edge, found, start, apart, end) refl))
      ]
]
