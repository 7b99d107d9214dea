-- ===== src/Core.antt =====
-- crates/cypherlite-core/src/types.rs, error.rs and config.rs: the records that every store keeps, and the
-- errors. Ids are numbers, an i64 and an f64 are their 64-bit patterns, and every feature is on.
pub mod Result
pub mod Endpoints
use cypher_lite.Prelude.{ℕ, String, Bool, Option, List}

abbrev pub NodeId : Type 0
NodeId = ℕ

abbrev pub EdgeId : Type 0
EdgeId = ℕ

abbrev pub PageId : Type 0
PageId = ℕ

abbrev pub SubgraphId : Type 0
SubgraphId = ℕ

abbrev pub HyperEdgeId : Type 0
HyperEdgeId = ℕ

mutual
  pub data PropertyValue : Type 0 where
    null : PropertyValue
    bool : Bool → PropertyValue
    int64 : ℕ → PropertyValue
    float64 : ℕ → PropertyValue
    string : List ℕ → PropertyValue
    bytes : List ℕ → PropertyValue
    array : PropertyValues → PropertyValue
    date_time : ℕ → PropertyValue

  -- `Vec<PropertyValue>`
  pub data PropertyValues : Type 0 where
    nil : PropertyValues
    cons : PropertyValue → PropertyValues → PropertyValues

abbrev pub Properties : Type 0
Properties = List (ℕ × PropertyValue)

-- config.rs
pub data SyncMode : Type 0 where
  full normal : SyncMode

pub data Direction : Type 0 where
  outgoing incoming both : Direction

pub record NodeRecord : Type 0 where
  pub node_id : NodeId
  pub labels : List ℕ
  pub properties : Properties
  pub next_edge_id : Option EdgeId
  pub overflow_page : Option PageId

pub record RelationshipRecord : Type 0 where
  pub edge_id : EdgeId
  pub start_node : NodeId
  pub end_node : NodeId
  pub rel_type_id : ℕ
  pub direction : Direction
  pub next_out_edge : Option EdgeId
  pub next_in_edge : Option EdgeId
  pub properties : Properties
  pub start_is_subgraph : Bool
  pub end_is_subgraph : Bool

pub data GraphEntity : Type 0 where
  node : NodeId → GraphEntity
  subgraph : SubgraphId → GraphEntity
  hyper_edge : HyperEdgeId → GraphEntity
  temporal_ref : NodeId → ℕ → GraphEntity

pub record SubgraphRecord : Type 0 where
  pub subgraph_id : SubgraphId
  pub temporal_anchor : Option ℕ
  pub properties : Properties

pub record HyperEdgeRecord : Type 0 where
  pub id : HyperEdgeId
  pub rel_type_id : ℕ
  pub sources : List GraphEntity
  pub targets : List GraphEntity
  pub properties : Properties

-- The errors that the modelled code returns.
pub data CypherLiteError : Type 0 where
  io_error : CypherLiteError
  corrupted_page : ℕ → String → CypherLiteError
  transaction_conflict : CypherLiteError
  out_of_space : CypherLiteError
  invalid_magic_number : CypherLiteError
  unsupported_version : ℕ → ℕ → CypherLiteError
  checksum_mismatch : ℕ → ℕ → CypherLiteError
  node_not_found : ℕ → CypherLiteError
  edge_not_found : ℕ → CypherLiteError
  -- a text, a name and a text
  constraint_violation : String → List ℕ → String → CypherLiteError
  feature_incompatible : ℕ → ℕ → CypherLiteError

unfoldable pub type_tag : PropertyValue → ℕ
type_tag null = 0
type_tag (bool b) = 1
type_tag (int64 n) = 2
type_tag (float64 f) = 3
type_tag (string s) = 4
type_tag (bytes b) = 5
type_tag (array a) = 6
type_tag (date_time ms) = 7
