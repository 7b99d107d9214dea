-- ===== src/Record/Property/Utf8.antt =====
-- `std::str::from_utf8`: which bytes are the text of a string.
use cypher_lite.Prelude.{
  ℕ, zero, suc, Bool, true, false, ◌&&◌, Option, none, some, [], ◌∷◌, ltb, leb, ◌==◌, if◌then◌else◌,
}
use cypher_lite.File.{Bytes}

-- How many bytes follow a leading byte, and the range of the first of them.
abbrev following : ℕ → Option (ℕ × ℕ × ℕ)
following b =
    if ltb b 0x80
    then some (0, 0, 0)
    else if ltb b 0xC2
    then none
    else if ltb b 0xE0
    then some (1, 0x80, 0xBF)
    else if b == 0xE0
    then some (2, 0xA0, 0xBF)
    else if b == 0xED
    then some (2, 0x80, 0x9F)
    else if ltb b 0xF0
    then some (2, 0x80, 0xBF)
    else if b == 0xF0
    then some (3, 0x90, 0xBF)
    else if ltb b 0xF4
    then some (3, 0x80, 0xBF)
    else if b == 0xF4
    then some (3, 0x80, 0x8F)
    else none

-- `n` more bytes of the character are due, the first of them from `low` to `high`.
abbrev continues : ℕ → ℕ → ℕ → Bytes → Bool
continues zero low high [] = true
continues (suc n) low high [] = false
continues zero low high (b ∷ bs) = elim (following b) [
  | none ↦ false
  | some f ↦ continues (f.0) (f.1) (f.2) bs
]
continues (suc n) low high (b ∷ bs) = leb low b && (leb b high && continues n 0x80 0xBF bs)

unfoldable pub is_utf8 : Bytes → Bool
is_utf8 bs = continues 0 0 0 bs
