-- ===== src/Record/Property.antt =====
-- crates/cypherlite-storage/src/btree/property_store.rs: one property as bytes. `bincode`, which encodes an
-- array, is a parameter.
pub mod Utf8
pub mod RoundTrip
use cypher_lite.Prelude.{
  ℕ, ◌+◌, Bool, true, false, not, Option, none, some, [], ◌∷◌, ◌++◌, ltb, leb, ◌==◌, if◌then◌else◌,
  length, get_elem?, take, drop,
}
use cypher_lite.Core.{
  PropertyValue, PropertyValues, null, bool, int64, float64, string, bytes, array, date_time,
}
use cypher_lite.File.{Bytes}
use cypher_lite.Endian.{to_le, from_le}
use Utf8.{is_utf8}

-- `bincode::serialize` and `bincode::deserialize` at `Vec<PropertyValue>`; `none` is an error.
pub record Bincode : Type 0 where
  pub serialize : PropertyValues → Option Bytes
  pub deserialize : Bytes → Option PropertyValues

abbrev pub max_inline_size : ℕ
max_inline_size = 31

abbrev unwrap_or_default : Option Bytes → Bytes
unwrap_or_default none = []
unwrap_or_default (some bs) = bs

-- The eight bytes of an `i64` or an `f64`, as the first of `buf`.
abbrev word : (ℕ → PropertyValue) → Bytes → Option PropertyValue
word make buf = if ltb (length buf) 8 then none else some (make (from_le (take 8 buf)))

abbrev bool_of : Option ℕ → Option PropertyValue
bool_of none = none
bool_of (some b) = some (bool (not (b == 0)))

module _ (bincode : Bincode) where
  -- The type tag and the bytes of a value.
  unfoldable pub serialize_value : PropertyValue → ℕ × Bytes
  serialize_value null = (0, [])
  serialize_value (bool b) = (1, (if b then 1 else 0) ∷ [])
  serialize_value (int64 n) = (2, to_le 8 n)
  serialize_value (float64 f) = (3, to_le 8 f)
  serialize_value (string s) = (4, s)
  serialize_value (bytes b) = (5, b)
  serialize_value (array a) = (6, unwrap_or_default (bincode.serialize a))
  serialize_value (date_time ms) = (7, to_le 8 ms)

  unfoldable pub deserialize_value : ℕ → Bytes → Option PropertyValue
  deserialize_value tag buf =
      if tag == 0
      then some null
      else if tag == 1
      then bool_of (get_elem? buf 0)
      else if tag == 2
      then word int64 buf
      else if tag == 3
      then word float64 buf
      else if tag == 4
      then (if is_utf8 buf then some (string buf) else none)
      else if tag == 5
      then some (bytes buf)
      else if tag == 6
      then elim (bincode.deserialize buf) [ none ↦ none | some a ↦ some (array a) ]
      else if tag == 7
      then word date_time buf
      else none

  unfoldable pub is_inline : PropertyValue → Bool
  is_inline value = leb (length ((serialize_value value).1)) max_inline_size

  unfoldable pub serialize_property : ℕ → PropertyValue → Bytes
  serialize_property key value = let s = serialize_value value in to_le 4 key ++ (s.0 ∷ s.1)

  -- The bytes that a value was read from.
  unfoldable pub value_len : PropertyValue → ℕ
  value_len null = 0
  value_len (bool b) = 1
  value_len (int64 n) = 8
  value_len (float64 f) = 8
  value_len (string s) = length s
  value_len (bytes b) = length b
  value_len (array a) = length ((serialize_value (array a)).1)
  value_len (date_time ms) = 8

  abbrev with_key : ℕ → Option PropertyValue → Option (ℕ × PropertyValue × ℕ)
  with_key key none = none
  with_key key (some value) = some (key, value, 5 + value_len value)

  -- The tag stands behind the four bytes of the key.
  abbrev tagged : ℕ → Bytes → Option (ℕ × PropertyValue × ℕ)
  tagged key [] = none
  tagged key (tag ∷ buf) = with_key key (deserialize_value tag buf)

  unfoldable pub deserialize_property : Bytes → Option (ℕ × PropertyValue × ℕ)
  deserialize_property buf =
      if ltb (length buf) 5 then none else tagged (from_le (take 4 buf)) (drop 4 buf)
