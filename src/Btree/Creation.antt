-- ===== src/Btree/Creation.antt =====
-- Creating a relationship: on every branch, what it returns and what it leaves of both stores.
use cypher_lite.Prelude.{
  ℕ, ◌≡◌, ◌≢◌, refl, sym, ◌∙◌, false, Option, none, some, arith, ◌==◌, ◌||◌, if◌then◌else◌, add_u64,
  Bool-cases, Option-cases, inl, inr, ◌⊎◌,
}
use mathlib.Core.Option
use cypher_lite.Core.{
  RelationshipRecord, EdgeId, NodeId, NodeRecord, Properties, outgoing, node_not_found,
}
use cypher_lite.Core.Result.{ok, err}
use cypher_lite.OrdMap.Laws.{get-modify}
use cypher_lite.Btree.Tree
use cypher_lite.Btree.NodeStore.{NodeStore, get_node, set_next_edge}
use cypher_lite.Btree.EdgeStore.{EdgeStore, Stores, set_head, link, create_edge}

-- A node record with a new head of its chain.
abbrev pub with_head : Option EdgeId → Option NodeRecord → Option NodeRecord
with_head e o = Option.map {A = NodeRecord} (λ r. record r { next_edge_id = e }) o

set_next_edge-ok :
    (s : NodeStore) (n : NodeId) (e : Option EdgeId) (r : NodeRecord)
    → get_node s n ≡ some r
    → (s' : NodeStore) × (set_next_edge s n e ≡ (ok tt, s'))
      × ((m : NodeId)
          → get_node s' m ≡ (if n == m then with_head e (get_node s m) else get_node s m))
unfolding get_node set_next_edge
set_next_edge-ok s n e r h = (
  record s { tree = Tree.update s.tree n (λ r. record r { next_edge_id = e }) },
  rw (set_next_edge, h) refl,
  λ m. get-modify n m (λ r. record r { next_edge_id = e }) s.tree.entries,
)

-- Setting the heads of both nodes.
abbrev pub Headed : Stores → NodeId → NodeId → NodeStore → Type 0
Headed s a b nodes =
    (n : NodeId)
    → get_node nodes n ≡ (
        if a == n || b == n
        then with_head (some s.edges.next_id) (get_node s.nodes n)
        else get_node s.nodes n)

-- The record of the new relationship.
abbrev pub new_edge :
    Stores → NodeId → NodeId → ℕ → Properties → NodeRecord → NodeRecord → RelationshipRecord
new_edge s a b t ps ra rb = record {
  edge_id = s.edges.next_id;
  start_node = a;
  end_node = b;
  rel_type_id = t;
  direction = outgoing;
  next_out_edge = ra.next_edge_id;
  next_in_edge = rb.next_edge_id;
  properties = ps;
  start_is_subgraph = false;
  end_is_subgraph = false;
}

-- The edge store with the new relationship.
abbrev pub added : Stores → RelationshipRecord → EdgeStore
added s r = record s.edges {
  tree = (Tree.insert s.edges.tree s.edges.next_id r).1;
  next_id = add_u64 s.edges.next_id 1;
}

-- Both nodes are there: the relationship is stored in front of both chains.
pub create_edge-found :
    (s : Stores) (a b : NodeId) (t : ℕ) (ps : Properties) (ra rb : NodeRecord)
    → get_node s.nodes a ≡ some ra
    → get_node s.nodes b ≡ some rb
    → (nodes : NodeStore) × (create_edge s a b t ps ≡ (
      ok s.edges.next_id,
      record { edges = added s (new_edge s a b t ps ra rb); nodes = nodes },
    ))
      × Headed s a b nodes
create_edge-found s a b t ps ra rb ha hb =
    let id = s.edges.next_id in
    let (one, set_one, at_one) = set_next_edge-ok s.nodes a (some id) ra ha in
    elim (Bool-cases (a == b)) [
      | inl loop ↦ (
        one,
        (unfold create_edge link set_head in
            rw (create_edge, ha, hb, link, set_head, set_one, loop) refl),
        λ n. ground (arith, at_one n),
      )
      | inr apart ↦
          let still : get_node one b ≡ some rb = ground (arith, at_one b) in
          let (two, set_two, at_two) = set_next_edge-ok one b (some id) rb still in
          (
            two,
            (unfold create_edge link set_head in
                rw (create_edge, ha, hb, link, set_head, set_one, apart, set_two) refl),
            λ n. ground (arith, at_one n, at_two n),
          )
    ]

-- Only the id has been taken.
abbrev pub taken : Stores → Stores
taken s = record s { edges = record s.edges { next_id = add_u64 s.edges.next_id 1 } }

-- The three outcomes of `create_edge`.
abbrev pub Outcomes : Stores → NodeId → NodeId → ℕ → Properties → Type 0
Outcomes s a b t ps =
    ((get_node s.nodes a ≡ none) × (create_edge s a b t ps ≡ (err (node_not_found a), taken s)))
    ⊎ (((get_node s.nodes a ≢ none)
          × (get_node s.nodes b ≡ none)
          × (create_edge s a b t ps ≡ (err (node_not_found b), taken s)))
        ⊎ ((ra : NodeRecord) × (rb : NodeRecord) × (nodes : NodeStore) × (get_node s.nodes a
              ≡ some ra)
            × (get_node s.nodes b ≡ some rb)
            × (create_edge s a b t ps ≡ (
              ok s.edges.next_id,
              record { edges = added s (new_edge s a b t ps ra rb); nodes = nodes },
            ))
            × Headed s a b nodes))

-- A missing node is an error, the start node first, and leaves nothing changed but the next id. With
-- both nodes there, the relationship is stored under the id, points at the old heads of both chains,
-- and is the new head of both; no other node record changes.
pub create_edge-Outcomes :
    (s : Stores) (a b : NodeId) (t : ℕ) (ps : Properties) → Outcomes s a b t ps
create_edge-Outcomes s a b t ps = elim (Option-cases (get_node s.nodes a)) [
  | inl no_start ↦ inl (no_start, unfold create_edge in rw (create_edge, no_start) refl)
  | inr (ra, ha) ↦ elim (Option-cases (get_node s.nodes b)) [
    | inl no_end ↦ inr (
        inl (
          (λ e. let clash = sym ha ∙ e in cc),
          no_end,
          unfold create_edge in rw (create_edge, ha, no_end) refl,
        ))
    | inr (rb, hb) ↦
        let (nodes, e, heads) = create_edge-found s a b t ps ra rb ha hb in
        inr (inr (ra, rb, nodes, ha, hb, e, heads))
  ]
]
