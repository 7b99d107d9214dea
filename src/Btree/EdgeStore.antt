-- ===== src/Btree/EdgeStore.antt =====
-- crates/cypherlite-storage/src/btree/edge_store.rs: relationships, and the heads of the adjacency
-- chains in the node records.
use cypher_lite.Prelude.{
  ℕ, Bool, false, ◌||◌, Option, none, some, List, [], ◌∷◌, map, ◌==◌, if◌then◌else◌, add_u64,
}
use cypher_lite.Core.{
  RelationshipRecord, EdgeId, NodeId, Properties, NodeRecord, outgoing, node_not_found,
  edge_not_found,
}
use cypher_lite.Core.Result.{Result, Done, ok, err, panic}
use cypher_lite.OrdMap.{values_where}
use cypher_lite.Btree.Tree
use cypher_lite.Btree.Tree.{BTree}
use cypher_lite.Btree.NodeStore.{NodeStore, get_node, set_next_edge}

pub record EdgeStore : Type 0 where
  pub tree : BTree RelationshipRecord
  pub next_id : ℕ

-- The two stores that an operation takes by `&mut`.
pub record Stores : Type 0 where
  pub edges : EdgeStore
  pub nodes : NodeStore

unfoldable pub new_edge_store : ℕ → EdgeStore
new_edge_store next_id = record { tree = Tree.new_tree; next_id = next_id }

-- A result and the stores after it; `then_in` is `?` with the stores passed on.
abbrev pub Outcome : Type 0 → Type 0
Outcome T = Result T × Stores

abbrev pub then_in : {T U : Type 0} → Outcome T → (T → Stores → Outcome U) → Outcome U
then_in (ok value, stores) rest = rest value stores
then_in (err error, stores) rest = (err error, stores)
then_in (panic, stores) rest = (panic, stores)

-- `node_store.set_next_edge(node, edge)`
unfoldable pub set_head : Stores → NodeId → Option EdgeId → Outcome Done
set_head stores node_id edge_id =
    let (result, nodes) = set_next_edge stores.nodes node_id edge_id in
    (result, record stores { nodes = nodes })

-- Past the two lookups: the record goes in and both heads are set.
unfoldable pub link :
    Stores → EdgeId → NodeId → NodeId → ℕ → Properties → NodeRecord → NodeRecord → Outcome EdgeId
link stores edge_id start_node end_node rel_type_id properties start_record end_record =
    let relationship : RelationshipRecord = record {
      edge_id = edge_id;
      start_node = start_node;
      end_node = end_node;
      rel_type_id = rel_type_id;
      direction = outgoing;
      next_out_edge = start_record.next_edge_id;
      next_in_edge = end_record.next_edge_id;
      properties = properties;
      start_is_subgraph = false;
      end_is_subgraph = false;
    } in
    let edges = record stores.edges {
      tree = (Tree.insert stores.edges.tree edge_id relationship).1;
    } in
    then_in (set_head (record stores { edges = edges }) start_node (some edge_id)) (λ done stores'.
      if start_node == end_node
      then (ok edge_id, stores')
      else then_in (set_head stores' end_node (some edge_id))
          (λ done stores''. (ok edge_id, stores'')))

-- The id is taken before the nodes are looked up.
unfoldable pub create_edge : Stores → NodeId → NodeId → ℕ → Properties → Outcome EdgeId
create_edge stores start_node end_node rel_type_id properties =
    let edge_id = stores.edges.next_id in
    let taken : Stores = record stores {
      edges = record stores.edges { next_id = add_u64 edge_id 1 };
    } in
    elim (get_node stores.nodes start_node) [
      | none ↦ (err (node_not_found start_node), taken)
      | some start_record ↦ elim (get_node stores.nodes end_node) [
        | none ↦ (err (node_not_found end_node), taken)
        | some end_record ↦
            link taken edge_id start_node end_node rel_type_id properties start_record end_record
      ]
    ]

unfoldable pub get_edge : EdgeStore → EdgeId → Option RelationshipRecord
get_edge s edge_id = Tree.search s.tree edge_id

unfoldable pub update_edge : EdgeStore → EdgeId → Properties → Result Done × EdgeStore
update_edge s edge_id properties = elim (Tree.search s.tree edge_id) [
  | none ↦ (err (edge_not_found edge_id), s)
  | some r ↦ (
    ok tt,
    record s { tree = Tree.update s.tree edge_id (λ r. record r { properties = properties }) },
  )
]

abbrev pub touches : NodeId → RelationshipRecord → Bool
touches node_id r = r.start_node == node_id || r.end_node == node_id

unfoldable pub get_edges_for_node : EdgeStore → NodeId → List RelationshipRecord
get_edges_for_node s node_id = values_where (touches node_id) s.tree.entries

-- `x == Some(edge_id)`
abbrev pub is_edge : Option EdgeId → EdgeId → Bool
is_edge none edge_id = false
is_edge (some e) edge_id = e == edge_id

-- If the edge is the head of the node's chain, the next one becomes the head.
unfoldable pub unlink : Stores → NodeId → EdgeId → Option EdgeId → Outcome Done
unlink stores node_id edge_id next = elim (get_node stores.nodes node_id) [
  | none ↦ (ok tt, stores)
  | some r ↦
      if is_edge r.next_edge_id edge_id then set_head stores node_id next else (ok tt, stores)
]

unfoldable pub delete_edge : Stores → EdgeId → Outcome RelationshipRecord
delete_edge stores edge_id =
    let (old, tree) = Tree.delete stores.edges.tree edge_id in
    let removed : Stores = record stores { edges = record stores.edges { tree = tree } } in
    elim old [
      | none ↦ (err (edge_not_found edge_id), removed)
      | some r ↦ then_in (unlink removed r.start_node edge_id r.next_out_edge) (λ done stores'.
          if r.start_node == r.end_node
          then (ok r, stores')
          else then_in (unlink stores' r.end_node edge_id r.next_in_edge)
              (λ done stores''. (ok r, stores'')))
    ]

-- The loop: an edge whose deletion fails is left out.
unfoldable pub delete_edges : Stores → List EdgeId → List RelationshipRecord × Stores
delete_edges stores [] = ([], stores)
delete_edges stores (edge_id ∷ edge_ids) =
    let (result, stores') = delete_edge stores edge_id in
    let (deleted, last) = delete_edges stores' edge_ids in
    (elim result [ ok r ↦ r ∷ deleted | _ ↦ deleted ], last)

unfoldable pub delete_edges_for_node : Stores → NodeId → Outcome (List RelationshipRecord)
delete_edges_for_node stores node_id =
    let edge_ids =
      map (λ r. r.edge_id) (values_where (touches node_id) stores.edges.tree.entries) in
    let (deleted, stores') = delete_edges stores edge_ids in (ok deleted, stores')

unfoldable pub insert_loaded_record : EdgeStore → RelationshipRecord → EdgeStore
insert_loaded_record s r = record s { tree = (Tree.insert s.tree r.edge_id r).1 }

unfoldable pub scan_by_type : EdgeStore → ℕ → List RelationshipRecord
scan_by_type s type_id = values_where (λ r. r.rel_type_id == type_id) s.tree.entries
