-- ===== src/Query/Float.antt =====
-- `f64` on 64-bit patterns. Signs, zeros and comparisons are bits; the arithmetic of the hardware is a
-- parameter.
use cypher_lite.Prelude.{ℕ, ◌+◌, ◌-◌, ◌%◌, ◌^◌, Bool, not, ◌&&◌, leb, ltb, ◌==◌, if◌then◌else◌}

pub record Float64 : Type 0 where
  pub add : ℕ → ℕ → ℕ
  pub sub : ℕ → ℕ → ℕ
  pub mul : ℕ → ℕ → ℕ
  pub div : ℕ → ℕ → ℕ
  pub rem : ℕ → ℕ → ℕ
  -- `as f64` of an `i64`
  pub of_i64 : ℕ → ℕ

abbrev pub sign_bit : ℕ
sign_bit = 2 ^ 63

abbrev pub abs : ℕ → ℕ
abs f = f % sign_bit

abbrev pub negate : ℕ → ℕ
negate f = (f + sign_bit) % 2 ^ 64

abbrev pub is_zero : ℕ → Bool
is_zero f = abs f == 0

abbrev pub is_nan : ℕ → Bool
is_nan f = ltb 0x7FF0000000000000 (abs f)

-- `f64::EPSILON`, 2 ^ -52
abbrev pub epsilon : ℕ
epsilon = 0x3CB0000000000000

-- A number that grows with the float, and is the same at both zeros.
abbrev order : ℕ → ℕ
order f = if leb sign_bit f then sign_bit - abs f else sign_bit + f

abbrev comparable : ℕ → ℕ → Bool
comparable a b = not (is_nan a) && not (is_nan b)

abbrev pub lt : ℕ → ℕ → Bool
lt a b = comparable a b && ltb (order a) (order b)

abbrev pub le : ℕ → ℕ → Bool
le a b = comparable a b && leb (order a) (order b)
