-- ===== src/Record/Property/RoundTrip.antt =====
-- A property reads back from its bytes (btree/property_store.rs).
use cypher_lite.Prelude.{ℕ, ◌^◌, ◌<◌, ◌≡◌, refl, ap, true, false, some, arith, length, take}
use cypher_lite.Core.{
  PropertyValue, PropertyValues, null, bool, int64, float64, string, bytes, array, date_time,
}
use cypher_lite.File.{Bytes}
use cypher_lite.Endian.{to_le, from_le, from_le-to_le_32, from_le-to_le_64}
use cypher_lite.Record.Property.{
  Bincode, serialize_value, deserialize_value, serialize_property, deserialize_property, value_len,
}
use cypher_lite.Record.Property.Utf8.{is_utf8}

-- What `bincode` promises: an encoded array reads back.
abbrev pub IsBincode : Bincode → Type 0
IsBincode bincode =
    (a : PropertyValues) (bs : Bytes)
    → bincode.serialize a ≡ some bs
    → bincode.deserialize bs ≡ some a

-- A value of its Rust type: a 64-bit word, a text in UTF-8, an array that `bincode` encodes.
abbrev pub Fits : Bincode → PropertyValue → Type 0
Fits bincode null = Unit
Fits bincode (bool b) = Unit
Fits bincode (int64 n) = n < 2 ^ 64
Fits bincode (float64 f) = f < 2 ^ 64
Fits bincode (string s) = is_utf8 s ≡ true
Fits bincode (bytes b) = Unit
Fits bincode (array a) = (bs : Bytes) × (bincode.serialize a ≡ some bs)
Fits bincode (date_time ms) = ms < 2 ^ 64

word-to_le : (n : ℕ) → n < 2 ^ 64 → from_le (take 8 (to_le 8 n)) ≡ n
word-to_le n h = from_le-to_le_64 n h

module _ (bincode : Bincode) (encodes : IsBincode bincode) where
  pub deserialize_value-serialize_value :
      (v : PropertyValue)
      → Fits bincode v
      → deserialize_value bincode ((serialize_value bincode v).0) ((serialize_value bincode v).1)
        ≡ some v
  unfolding deserialize_value serialize_value
  deserialize_value-serialize_value null h = refl
  deserialize_value-serialize_value (bool true) h = refl
  deserialize_value-serialize_value (bool false) h = refl
  deserialize_value-serialize_value (int64 n) h = ap (λ k. some (int64 k)) (word-to_le n h)
  deserialize_value-serialize_value (float64 n) h = ap (λ k. some (float64 k)) (word-to_le n h)
  deserialize_value-serialize_value (string s) h = rw h refl
  deserialize_value-serialize_value (bytes b) h = refl
  deserialize_value-serialize_value (array a) (bs, h) = rw (h, encodes a bs h) refl
  deserialize_value-serialize_value (date_time n) h = ap (λ k. some (date_time k)) (word-to_le n h)

  value_len-serialize_value :
      (v : PropertyValue) → value_len bincode v ≡ length ((serialize_value bincode v).1)
  unfolding value_len serialize_value
  value_len-serialize_value null = refl
  value_len-serialize_value (bool b) = refl
  value_len-serialize_value (int64 n) = refl
  value_len-serialize_value (float64 n) = refl
  value_len-serialize_value (string s) = refl
  value_len-serialize_value (bytes b) = refl
  value_len-serialize_value (array a) = refl
  value_len-serialize_value (date_time n) = refl

  pub deserialize_property-serialize_property :
      (key : ℕ) (v : PropertyValue)
      → key < 2 ^ 32
      → Fits bincode v
      → deserialize_property bincode (serialize_property bincode key v)
        ≡ some (key, v, length (serialize_property bincode key v))
  unfolding deserialize_property serialize_property
  deserialize_property-serialize_property key v h k =
      rw
        (from_le-to_le_32 key h, deserialize_value-serialize_value v k, value_len-serialize_value v)
        (ground arith)
