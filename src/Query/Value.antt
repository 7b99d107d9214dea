-- ===== src/Query/Value.antt =====
-- crates/cypherlite-query/src/executor/mod.rs: the values of a query, and what an evaluation ends in.
use cypher_lite.Prelude.{ℕ, Bool, true, false, String, List}
use cypher_lite.Core
use cypher_lite.Core.{NodeId, EdgeId, SubgraphId, HyperEdgeId, PropertyValue, PropertyValues}
use cypher_lite.Catalog.{Name}

mutual
  pub data Value : Type 0 where
    null : Value
    bool : Bool → Value
    int64 : ℕ → Value
    float64 : ℕ → Value
    string : Name → Value
    bytes : List ℕ → Value
    list : Values → Value
    node : NodeId → Value
    edge : EdgeId → Value
    date_time : ℕ → Value
    subgraph : SubgraphId → Value
    hyperedge : HyperEdgeId → Value
    temporal_node : NodeId → ℕ → Value

  -- `Vec<Value>`
  pub data Values : Type 0 where
    nil : Values
    cons : Value → Values → Values

-- `Result<T, ExecutionError>`: an error has a text and what is filled into it. `panic` is an
-- evaluation that does not return.
pub data Outcome (T : Type 0) : Type 0 where
  ok : T → Outcome T
  error : String → Name → Outcome T
  panic : Outcome T

infixl 5 ◌>>=◌
abbrev pub ◌>>=◌ : {T U : Type 0} → Outcome T → (T → Outcome U) → Outcome U
ok value >>= rest = rest value
error message detail >>= rest = error message detail
panic >>= rest = panic

-- `== Value::Null`
abbrev pub is_null_value : Value → Bool
is_null_value null = true
is_null_value _ = false

unfoldable mutual
  -- `Value::from(PropertyValue)`
  pub from_property : PropertyValue → Value
  from_property Core.null = null
  from_property (Core.bool b) = bool b
  from_property (Core.int64 n) = int64 n
  from_property (Core.float64 f) = float64 f
  from_property (Core.string s) = string s
  from_property (Core.bytes b) = bytes b
  from_property (Core.array a) = list (from_properties a)
  from_property (Core.date_time ms) = date_time ms

  pub from_properties : PropertyValues → Values
  from_properties Core.nil = nil
  from_properties (Core.cons v vs) = cons (from_property v) (from_properties vs)
