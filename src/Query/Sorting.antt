-- ===== src/Query/Sorting.antt =====
-- crates/cypherlite-query/src/executor/eval.rs: the order of `ORDER BY`. Values of different kinds, but for
-- numbers and null, count as equal.
use Prim.Native.Nat.{compare, Ordering}
use cypher_lite.Prelude.{ℕ, Bool, not, ◌&&◌, if◌then◌else◌}
use cypher_lite.Query.Value.{Value, null, bool, int64, float64, string, date_time}
use cypher_lite.Query.Integer.{order}
use cypher_lite.Query.Float.{Float64, lt}
use cypher_lite.Query.Operators.{less_bytes}

-- `cmp` of an ordered type, by whether the first is smaller and whether the second is
abbrev by_order : Bool → Bool → Ordering
by_order less greater = if less then Ordering.lt else if greater then Ordering.gt else Ordering.eq

-- `partial_cmp(..).unwrap_or(Equal)`
abbrev by_float : ℕ → ℕ → Ordering
by_float a b = by_order (lt a b) (lt b a)

unfoldable pub compare_values : Float64 → Value → Value → Ordering
compare_values f64 null null = Ordering.eq
compare_values f64 null _ = Ordering.lt
compare_values f64 _ null = Ordering.gt
compare_values f64 (int64 a) (int64 b) = compare (order a) (order b)
compare_values f64 (float64 a) (float64 b) = by_float a b
compare_values f64 (int64 a) (float64 b) = by_float (f64.of_i64 a) b
compare_values f64 (float64 a) (int64 b) = by_float a (f64.of_i64 b)
compare_values f64 (string a) (string b) = by_order (less_bytes a b) (less_bytes b a)
compare_values f64 (bool a) (bool b) = by_order (not a && b) (a && not b)
compare_values f64 (date_time a) (date_time b) = compare (order a) (order b)
compare_values f64 _ _ = Ordering.eq
