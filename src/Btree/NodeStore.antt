-- ===== src/Btree/NodeStore.antt =====
-- crates/cypherlite-storage/src/btree/node_store.rs
use cypher_lite.Prelude.{ℕ, Option, none, some, List, contains, add_u64, map}
use cypher_lite.Core.{NodeRecord, NodeId, EdgeId, Properties, node_not_found}
use cypher_lite.Core.Result.{Result, Done, ok, err, ok_or}
use cypher_lite.OrdMap.{values_where}
use cypher_lite.Btree.Tree
use cypher_lite.Btree.Tree.{BTree}

pub record NodeStore : Type 0 where
  pub tree : BTree NodeRecord
  pub next_id : ℕ

unfoldable pub new_node_store : ℕ → NodeStore
new_node_store next_id = record { tree = Tree.new_tree; next_id = next_id }

unfoldable pub create_node : NodeStore → List ℕ → Properties → NodeId × NodeStore
create_node s labels properties =
    let node : NodeRecord = record {
      node_id = s.next_id;
      labels = labels;
      properties = properties;
      next_edge_id = none;
      overflow_page = none;
    } in
    (
      s.next_id,
      record s { tree = (Tree.insert s.tree s.next_id node).1; next_id = add_u64 s.next_id 1 },
    )

unfoldable pub get_node : NodeStore → NodeId → Option NodeRecord
get_node s node_id = Tree.search s.tree node_id

unfoldable pub update_node : NodeStore → NodeId → Properties → Result Done × NodeStore
update_node s node_id properties = elim (Tree.search s.tree node_id) [
  | some r ↦ (
    ok tt,
    record s { tree = Tree.update s.tree node_id (λ r. record r { properties = properties }) },
  )
  | none ↦ (err (node_not_found node_id), s)
]

unfoldable pub delete_node : NodeStore → NodeId → Result NodeRecord × NodeStore
delete_node s node_id =
    let (old, tree) = Tree.delete s.tree node_id in
    (ok_or old (node_not_found node_id), record s { tree = tree })

unfoldable pub set_next_edge : NodeStore → NodeId → Option EdgeId → Result Done × NodeStore
set_next_edge s node_id edge_id = elim (Tree.search s.tree node_id) [
  | some r ↦ (
    ok tt,
    record s { tree = Tree.update s.tree node_id (λ r. record r { next_edge_id = edge_id }) },
  )
  | none ↦ (err (node_not_found node_id), s)
]

-- The id of a record from a file is not compared with `next_id`.
unfoldable pub insert_loaded_record : NodeStore → NodeRecord → NodeStore
insert_loaded_record s r = record s { tree = (Tree.insert s.tree r.node_id r).1 }

unfoldable pub scan_all : NodeStore → List NodeRecord
scan_all s = map (λ e. e.1) s.tree.entries

unfoldable pub scan_by_label : NodeStore → ℕ → List NodeRecord
scan_by_label s label_id = values_where (λ r. contains r.labels label_id) s.tree.entries
