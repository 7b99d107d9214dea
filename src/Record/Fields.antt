-- ===== src/Record/Fields.antt =====
-- The parts that several records share (page/record_serialization.rs): counts, flags, and the loops
-- over labels, members and properties.
pub mod RoundTrip
use cypher_lite.Prelude.{
  ℕ, ◌+◌, ◌*◌, ◌%◌, ◌^◌, Bool, not, ◌==◌, if◌then◌else◌, Option, List, [], ◌∷◌, ◌++◌, length,
}
use cypher_lite.Core.{Properties, PropertyValue}
use cypher_lite.File.{Bytes}
use cypher_lite.Endian.{to_le}
use cypher_lite.Record.Reader.{
  Reader, pure, lift, ◌>>=◌, ensure, read_bytes, read_uint, read_byte, repeat,
}
use cypher_lite.Record.Property.{Bincode, serialize_property, deserialize_property}

-- The bytes of every element, in order.
abbrev pub concat_map {ℓ} : {A : Type ℓ} → (A → Bytes) → List A → Bytes
concat_map f [] = []
concat_map f (x ∷ xs) = f x ++ concat_map f xs

-- `xs.len() as u16`
abbrev pub put_count : ℕ → Bytes
put_count n = to_le 2 (n % 2 ^ 16)

abbrev pub put_flags : Bool → Bytes
put_flags deleted = (if deleted then 1 else 0) ∷ []

-- `(flags & 0x01) != 0`
unfoldable pub read_flags : Reader Bool
read_flags = do flags ← read_byte; pure (not (flags % 2 == 0))

abbrev pub put_words : ℕ → List ℕ → Bytes
put_words w = concat_map (to_le w)

module _ (bincode : Bincode) where
  -- A property behind its length.
  unfoldable pub put_property : ℕ × PropertyValue → Bytes
  put_property p =
      let prop_bytes = serialize_property bincode (p.0) (p.1) in
      put_count (length prop_bytes) ++ prop_bytes

  unfoldable pub put_properties : Properties → Bytes
  put_properties ps = put_count (length ps) ++ concat_map put_property ps

  unfoldable pub read_property : Reader (ℕ × PropertyValue)
  read_property = do
    prop_len ← read_uint 2
    slice ← read_bytes prop_len
    p ← lift (deserialize_property bincode slice)
    pure (p.0, p.1)

  unfoldable pub read_properties : Reader Properties
  read_properties = do prop_count ← read_uint 2; repeat prop_count read_property
