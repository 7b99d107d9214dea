-- ===== src/Page/Manager/Bits.antt =====
-- Setting and clearing one bit of a byte, checked for every byte and every pair of bits.
use Prim.Native.Nat.{bit_and, bit_or}
use cypher_lite.Prelude.{
  ℕ, zero, suc, ◌+◌, ◌-◌, ◌*◌, ◌/◌, ◌%◌, ◌^◌, ◌<◌, ◌≡◌, refl, sym, subst, if◌then◌else◌, Bool, true,
  false, not, ◌&&◌, ◌||◌, arith, ltb, ◌==◌,
}
use native.Mathlib.Decide.{dec_lt}
use cypher_lite.Page.Manager.{bit_set}

-- One number stands for a byte and two bit numbers.
abbrev byte_of : ℕ → ℕ
byte_of code = code / 64

abbrev first_of : ℕ → ℕ
first_of code = code / 8 % 8

abbrev second_of : ℕ → ℕ
second_of code = code % 8

-- Two tests of a byte and two bit numbers that agree in every row of their table are the same.
module _ (lhs rhs : ℕ → ℕ → ℕ → Bool) where
  abbrev row : ℕ → Bool
  row code =
      if lhs (byte_of code) (first_of code) (second_of code)
      then rhs (byte_of code) (first_of code) (second_of code)
      else not (rhs (byte_of code) (first_of code) (second_of code))

  table : ℕ → Bool
  table zero = true
  table (suc code) = let others = table code in if row code then others else false

  row-table : (size code : ℕ) → code < size → table size ≡ true → row code ≡ true
  unfolding table
  row-table zero code inside full = absurd (omega arith)
  row-table (suc size) code inside full = elim (dec_lt code size) [
    | yes before ↦ row-table size code before (ground arith)
    | no at_end ↦
        let last : size ≡ code = omega arith in
        let holds : row size ≡ true = ground arith in subst (λ c. row c ≡ true) last holds
  ]

  from_table : table 16384 ≡ true → (b k j : ℕ) → b < 256 → k < 8 → j < 8 → lhs b k j ≡ rhs b k j
  from_table full b k j hb hk hj =
      let code : ℕ = b * 64 + (k * 8 + j) in
      let at = row-table 16384 code (omega arith) full in
      let byte : byte_of (b * 64 + (k * 8 + j)) ≡ b = omega arith in
      let first : first_of (b * 64 + (k * 8 + j)) ≡ k = omega arith in
      let second : second_of (b * 64 + (k * 8 + j)) ≡ j = omega arith in
      let agreed : (if lhs b k j then rhs b k j else not (rhs b k j)) ≡ true =
        rw (byte, first, second) at at in
      ground arith

set_table :
    table (λ b k j. bit_set (bit_or b (2 ^ k)) j) (λ b k j. k == j || bit_set b j) 16384 ≡ true
unfolding table bit_set
set_table = refl

clear_table :
    table
      (λ b k j. bit_set (bit_and b (255 - 2 ^ k)) j)
      (λ b k j. not (k == j) && bit_set b j)
      16384
    ≡ true
unfolding table bit_set
clear_table = refl

byte_table : table (λ b k j. b == 255) (λ b k j. b == 255 && bit_set b j) 16384 ≡ true
unfolding table bit_set
byte_table = refl

pub bit_set-bit_or :
    (b k j : ℕ) → b < 256 → k < 8 → j < 8 → bit_set (bit_or b (2 ^ k)) j ≡ (k == j || bit_set b j)
bit_set-bit_or = from_table _ _ set_table

pub bit_set-bit_and :
    (b k j : ℕ)
    → b < 256
    → k < 8
    → j < 8
    → bit_set (bit_and b (255 - 2 ^ k)) j ≡ (not (k == j) && bit_set b j)
bit_set-bit_and = from_table _ _ clear_table

-- A byte that the scan passes over has no clear bit.
pub bit_set-full : (j : ℕ) → j < 8 → bit_set 255 j ≡ true
bit_set-full j h = sym (
    from_table (λ b k j. b == 255) (λ b k j. b == 255 && bit_set b j) byte_table 255 0 j
      (omega arith) (omega arith) h)

range_table :
    table
      (λ b k j. ltb (bit_or b (2 ^ k)) 256 && ltb (bit_and b (255 - 2 ^ k)) 256)
      (λ b k j. true)
      16384
    ≡ true
unfolding table
range_table = refl

pub bit_range :
    (b k : ℕ) → b < 256 → k < 8 → (bit_or b (2 ^ k) < 256) × (bit_and b (255 - 2 ^ k) < 256)
bit_range b k hb hk =
    let found : (ltb (bit_or b (2 ^ k)) 256 && ltb (bit_and b (255 - 2 ^ k)) 256) ≡ true =
      from_table (λ b k j. ltb (bit_or b (2 ^ k)) 256 && ltb (bit_and b (255 - 2 ^ k)) 256)
        (λ b k j. true) range_table b k 0 hb hk (omega arith) in
    (ground arith, ground arith)
