-- ===== src/Endian.antt =====
-- `to_le_bytes` and `from_le_bytes` of the unsigned integers, by width in bytes.
use cypher_lite.Prelude.{
  ℕ, zero, suc, ◌+◌, ◌*◌, ◌/◌, ◌%◌, ◌^◌, ◌<◌, ◌≡◌, refl, ap, [], ◌∷◌, arith, length,
}
use cypher_lite.File.{Bytes}

-- Opens at a numeral width.
abbrev pub to_le : ℕ → ℕ → Bytes
to_le zero n = []
to_le (suc w) n = (n % 256) ∷ to_le w (n / 256)

abbrev pub from_le : Bytes → ℕ
from_le [] = 0
from_le (b ∷ bs) = b + 256 * from_le bs

-- Every byte of a sequence is one.
abbrev pub AreBytes : Bytes → Type 0
AreBytes [] = Unit
AreBytes (b ∷ bs) = (b < 256) × AreBytes bs

pub length-to_le : (w n : ℕ) → length (to_le w n) ≡ w
length-to_le zero n = refl
length-to_le (suc w) n = ap suc (length-to_le w (n / 256))

pub from_le-to_le_32 : (n : ℕ) → n < 2 ^ 32 → from_le (to_le 4 n) ≡ n
from_le-to_le_32 n h = omega arith

pub from_le-to_le_64 : (n : ℕ) → n < 2 ^ 64 → from_le (to_le 8 n) ≡ n
from_le-to_le_64 n h = omega arith

pub from_le-to_le_16 : (n : ℕ) → n < 2 ^ 16 → from_le (to_le 2 n) ≡ n
from_le-to_le_16 n h = omega arith
