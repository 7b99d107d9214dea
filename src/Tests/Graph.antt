-- ===== src/Tests/Graph.antt =====
-- The stores of the graph at concrete inputs.
use cypher_lite.Prelude.{
  ℕ, ◌≡◌, ◌<◌, refl, true, false, ◌||◌, ◌&&◌, none, some, [], arith, contains, ◌==◌, if◌then◌else◌,
}
use mathlib.Core.Option
use cypher_lite.Core.{EdgeId, NodeRecord, SubgraphRecord, HyperEdgeRecord}
use cypher_lite.Core.{subgraph, hyper_edge, outgoing}
use cypher_lite.Core.Endpoints.{
  start_entity, end_entity, from_entities, flattened, start_entity-from_entities,
}
use cypher_lite.Core.Result.{ok}
use cypher_lite.OrdMap
use cypher_lite.Btree.NodeStore.{new_node_store, create_node, get_node, set_next_edge}
use cypher_lite.Btree.EdgeStore.{
  Stores, new_edge_store, create_edge, delete_edge, delete_edges_for_node, get_edge,
  get_edges_for_node, touches, link, set_head, unlink,
}
use cypher_lite.Btree.Creation.{Outcomes, create_edge-Outcomes}
use cypher_lite.Btree.DeletionOfAll.{found_and, delete_edges_for_node-exact}
use cypher_lite.MultiIndex.{MultiIndex, new_index, add, remove, remove_all}
use cypher_lite.MultiIndex.Relation.{
  Represents, with_pair, without_pair, without_owner, new_index-Represents, add-Represents,
  remove-Represents, remove_all-Represents,
}
use cypher_lite.Subgraph
use cypher_lite.Subgraph.Ids as SubgraphIds
use cypher_lite.Subgraph.Ids.{Has, get-Has}
use cypher_lite.HyperEdge
use cypher_lite.HyperEdge.Ids as HyperEdgeIds
use cypher_lite.HyperEdge.Ids.{Grown, get-Grown}
use cypher_lite.Version.{VersionStore, new_version_store, node, snapshot, snapshot_node}
use cypher_lite.Version.History.{
  Recorded, starts, snapshots, IsNumbered, Recorded-IsNumbered, Appends, snapshot_node-Appends,
}

-- Nodes 1 and 2.
abbrev two_nodes : Stores
two_nodes = record {
  edges = new_edge_store 1;
  nodes = (create_node (create_node (new_node_store 1) [] []).1 [] []).1;
}

create_edge-Outcomes_example : Outcomes two_nodes 1 2 7 []
create_edge-Outcomes_example = create_edge-Outcomes two_nodes 1 2 7 []

abbrev one_edge : Stores
one_edge = (create_edge two_nodes 1 2 7 []).1

abbrev two_edges : Stores
two_edges = (create_edge one_edge 1 2 7 []).1

-- The older of two relationships is deleted, and then the newer: the head of node 1 is still the
-- older one, which is gone.
abbrev after_both : Stores
after_both = (delete_edge (delete_edge two_edges 1).1 2).1

delete_edge_dangling :
    (get_edge after_both.edges 1 ≡ none)
    × (Option.map {A = NodeRecord} (λ r. r.next_edge_id) (get_node after_both.nodes 1)
        ≡ some (some 1))
unfolding delete_edge create_edge create_node new_node_store new_edge_store link set_head unlink
    set_next_edge get_node get_edge OrdMap.get OrdMap.insert OrdMap.modify OrdMap.remove
delete_edge_dangling = (refl, refl)

delete_edges_for_node-exact_example :
    ((delete_edges_for_node one_edge 1).0 ≡ ok (get_edges_for_node one_edge.edges 1))
    × ((k : EdgeId)
        → get_edge (delete_edges_for_node one_edge 1).1.edges k ≡ (
            if found_and (touches 1) (get_edge one_edge.edges k)
            then none
            else get_edge one_edge.edges k))
unfolding create_edge create_node new_node_store new_edge_store link set_head set_next_edge get_node
    OrdMap.get OrdMap.insert OrdMap.modify
delete_edges_for_node-exact_example = delete_edges_for_node-exact one_edge 1 (refl, tt) (tt, tt)

-- One pair.
abbrev pair : MultiIndex
pair = add new_index 4 9

pair-Represents : Represents pair (with_pair 4 9 (λ a b. false))
pair-Represents = add-Represents new_index (λ a b. false) 4 9 new_index-Represents

add-Represents_example : Represents (add pair 4 8) (with_pair 4 8 (with_pair 4 9 (λ a b. false)))
add-Represents_example = add-Represents pair (with_pair 4 9 (λ a b. false)) 4 8 pair-Represents

remove-Represents_example :
    ((remove pair 4 9).0 ≡ true)
    × Represents (remove pair 4 9).1 (without_pair 4 9 (with_pair 4 9 (λ a b. false)))
remove-Represents_example =
    remove-Represents pair (with_pair 4 9 (λ a b. false)) 4 9 pair-Represents

remove_all-Represents_example :
    ((b : ℕ) → contains (remove_all pair 4).0 b ≡ (4 == 4 && 9 == b || false))
    × Represents (remove_all pair 4).1 (without_owner 4 (with_pair 4 9 (λ a b. false)))
remove_all-Represents_example =
    remove_all-Represents pair (with_pair 4 9 (λ a b. false)) 4 pair-Represents

-- A subgraph that is created in a store that starts at 1.
abbrev one_subgraph : Subgraph.SubgraphStore
one_subgraph = (Subgraph.create (Subgraph.new_subgraph_store 1) [] none).1

abbrev first_subgraph : SubgraphRecord
first_subgraph = record { subgraph_id = 1; temporal_anchor = none; properties = [] }

get-Has_example : (first_subgraph.subgraph_id ≡ 1) × (1 < one_subgraph.next_id)
unfolding Subgraph.create Subgraph.new_subgraph_store Subgraph.get OrdMap.get OrdMap.insert
get-Has_example =
    get-Has one_subgraph 1 first_subgraph
      (SubgraphIds.creates (Subgraph.new_subgraph_store 1) [] none (SubgraphIds.starts 1)
        (omega arith))
      refl

abbrev one_hyper_edge : HyperEdge.HyperEdgeStore
one_hyper_edge = (HyperEdge.create (HyperEdge.new_hyper_edge_store 1) 3 [] [] []).1

abbrev first_hyper_edge : HyperEdgeRecord
first_hyper_edge = record { id = 1; rel_type_id = 3; sources = []; targets = []; properties = [] }

get-Grown_example : (first_hyper_edge.id ≡ 1) × (1 < one_hyper_edge.next_id)
unfolding HyperEdge.create HyperEdge.new_hyper_edge_store HyperEdge.get OrdMap.get OrdMap.insert
get-Grown_example =
    get-Grown one_hyper_edge 1 first_hyper_edge
      (HyperEdgeIds.creates (HyperEdge.new_hyper_edge_store 1) 3 [] [] [] (HyperEdgeIds.starts 1)
        (omega arith))
      refl

abbrev plain : NodeRecord
plain = record {
  node_id = 5;
  labels = [];
  properties = [];
  next_edge_id = none;
  overflow_page = none;
}

abbrev one_version : VersionStore
one_version = (snapshot new_version_store 5 (node plain)).1

one_version-Recorded : Recorded one_version
one_version-Recorded =
    snapshots new_version_store 5 (node plain) starts (omega arith)
      (unfold new_version_store OrdMap.entry_or OrdMap.get in omega arith)

Recorded-IsNumbered_example : IsNumbered one_version
Recorded-IsNumbered_example = Recorded-IsNumbered one_version one_version-Recorded

snapshot_node-Appends_example :
    Appends one_version 5 (node plain) (snapshot_node one_version 5 plain)
snapshot_node-Appends_example =
    snapshot_node-Appends one_version 5 plain one_version-Recorded (omega arith)
      (unfold new_version_store snapshot OrdMap.entry_or OrdMap.get OrdMap.insert in omega arith)

start_entity-from_entities_example :
    (start_entity (from_entities 1 (subgraph 4) (hyper_edge 5) 2 outgoing none none [])
      ≡ flattened (subgraph 4))
    × (end_entity (from_entities 1 (subgraph 4) (hyper_edge 5) 2 outgoing none none [])
        ≡ flattened (hyper_edge 5))
start_entity-from_entities_example =
    start_entity-from_entities 1 (subgraph 4) (hyper_edge 5) 2 outgoing none none []
