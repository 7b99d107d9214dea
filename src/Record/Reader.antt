-- ===== src/Record/Reader.antt =====
-- Reading a value at an offset of a buffer: `buf.len() < offset + n` ends the reading with `None`.
use cypher_lite.Prelude.{
  ℕ, zero, suc, ◌+◌, Option, none, some, List, [], ◌∷◌, ltb, if◌then◌else◌, length, get_elem?, take,
  drop,
}
use cypher_lite.File.{Bytes}
use cypher_lite.Endian.{from_le}

-- A value and the offset behind it.
abbrev pub Reader : Type 0 → Type 0
Reader A = Bytes → ℕ → Option (A × ℕ)

unfoldable pub pure : {A : Type 0} → A → Reader A
pure x buf offset = some (x, offset)

module _ {A B : Type 0} where
  abbrev pub and_then : Option (A × ℕ) → (A → Reader B) → Bytes → Option (B × ℕ)
  and_then none k buf = none
  and_then (some r) k buf = k r.0 buf r.1

  infixl 5 ◌>>=◌
  unfoldable pub ◌>>=◌ : Reader A → (A → Reader B) → Reader B
  m >>= k = λ buf offset. and_then (m buf offset) k buf

-- `?` on an `Option`
unfoldable pub lift : {A : Type 0} → Option A → Reader A
lift none buf offset = none
lift (some x) buf offset = some (x, offset)

-- `buf.len() < offset + n`
unfoldable pub ensure : ℕ → Reader (Unit {0})
ensure n buf offset = if ltb (length buf) (offset + n) then none else some (tt, offset)

-- The next `n` bytes.
unfoldable pub read_bytes : ℕ → Reader Bytes
read_bytes n buf offset =
    if ltb (length buf) (offset + n) then none else some (take n (drop offset buf), offset + n)

-- An unsigned integer of `w` bytes.
unfoldable pub read_uint : ℕ → Reader ℕ
read_uint w buf offset =
    if ltb (length buf) (offset + w)
    then none
    else some (from_le (take w (drop offset buf)), offset + w)

unfoldable pub read_byte : Reader ℕ
read_byte buf offset = elim (get_elem? buf offset) [ none ↦ none | some b ↦ some (b, offset + 1) ]

-- `for _ in 0..n`
unfoldable pub repeat : {A : Type 0} → ℕ → Reader A → Reader (List A)
repeat zero r = pure []
repeat (suc n) r = do x ← r; xs ← repeat n r; pure (x ∷ xs)
