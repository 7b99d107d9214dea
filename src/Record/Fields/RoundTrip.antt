-- ===== src/Record/Fields/RoundTrip.antt =====
-- The shared parts read back.
use cypher_lite.Prelude.{
  ℕ, ◌%◌, ◌^◌, ◌<◌, ◌≡◌, refl, subst, Bool, true, false, List, [], ◌∷◌, arith, length,
}
use cypher_lite.Core.{Properties, PropertyValue}
use cypher_lite.File.{Bytes}
use cypher_lite.Endian.{to_le, from_le-to_le_16}
use cypher_lite.Record.Reader.{read_uint, repeat, Reader}
use cypher_lite.Record.Reads.{
  Reads, Reads-read_bytes, Reads-read_uint, Reads-read_byte, Reads-pure, Reads-bind, Reads-lift,
  Reads-map, Reads-last,
}
use cypher_lite.Record.Property.{Bincode, serialize_property}
use cypher_lite.Record.Property.RoundTrip.{IsBincode, Fits, deserialize_property-serialize_property}
use cypher_lite.Record.Fields.{
  concat_map, put_count, put_flags, read_flags, put_property, put_properties, read_property,
  read_properties,
}

abbrev pub All {ℓ} : {A : Type ℓ} → (A → Type 0) → List A → Type 0
All P [] = Unit
All P (x ∷ xs) = P x × All P xs

pub Reads-repeat :
    {A : Type 0} {r : Reader A} (encode : A → Bytes) (P : A → Type 0)
    → ((a : A) → P a → Reads r (encode a) a)
    → (bs : List A) → All P bs
    → Reads (repeat (length bs) r) (concat_map encode bs) bs
unfolding repeat
Reads-repeat encode P each [] h = Reads-pure []
Reads-repeat encode P each (b ∷ bs) h =
    Reads-bind _ (each b (h.0)) (Reads-map _ (Reads-repeat encode P each bs (h.1)))

pub Reads-count : (n : ℕ) → n < 2 ^ 16 → Reads (read_uint 2) (put_count n) n
Reads-count n h =
    let small : n ≡ n % 2 ^ 16 = omega arith in
    subst (λ m. Reads (read_uint 2) (to_le 2 m) n) small
      (Reads-read_uint 2 n (from_le-to_le_16 n h))

pub Reads-flags : (deleted : Bool) → Reads read_flags (put_flags deleted) deleted
unfolding read_flags
Reads-flags true = Reads-map _ (Reads-read_byte 1)
Reads-flags false = Reads-map _ (Reads-read_byte 0)

module _ (bincode : Bincode) where
  -- A property of its Rust types whose bytes a `u16` counts.
  abbrev pub FitsProperty : ℕ × PropertyValue → Type 0
  FitsProperty p =
      (p.0 < 2 ^ 32)
      × Fits bincode (p.1)
      × (length (serialize_property bincode (p.0) (p.1)) < 2 ^ 16)

  abbrev pub FitsProperties : Properties → Type 0
  FitsProperties ps = (length ps < 2 ^ 16) × All FitsProperty ps

  module _ (encodes : IsBincode bincode) where
    Reads-property :
        (p : ℕ × PropertyValue)
        → FitsProperty p
        → Reads (read_property bincode) (put_property bincode p) p
    unfolding read_property put_property
    Reads-property p h =
        let b = serialize_property bincode (p.0) (p.1) in
        Reads-bind _ (Reads-count (length b) (h.2)) (
          Reads-last _ (Reads-read_bytes (length b) b refl) (
            Reads-lift _
              (deserialize_property-serialize_property bincode encodes (p.0) (p.1) (h.0) (h.1))
              (Reads-pure p)))

    pub Reads-properties :
        (ps : Properties)
        → FitsProperties ps
        → Reads (read_properties bincode) (put_properties bincode ps) ps
    unfolding read_properties put_properties
    Reads-properties ps h =
        Reads-bind _ (Reads-count (length ps) (h.0))
          (Reads-repeat (put_property bincode) FitsProperty Reads-property ps (h.1))
