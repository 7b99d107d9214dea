-- ===== src/Query/Integer.antt =====
-- `i64` on 64-bit patterns, as a release build computes: sums, differences and products wrap around, and
-- the one division that overflows panics.
use cypher_lite.Prelude.{ℕ, ◌+◌, ◌-◌, ◌*◌, ◌/◌, ◌%◌, ◌^◌, Bool, not, ◌&&◌, leb, ◌==◌, if◌then◌else◌}
use cypher_lite.Query.Value.{Outcome, ok, panic}

abbrev pub modulus : ℕ
modulus = 2 ^ 64

-- `i64::MIN`
abbrev pub lowest : ℕ
lowest = 2 ^ 63

abbrev pub is_negative : ℕ → Bool
is_negative n = leb lowest n

-- `-n`, which is `lowest` at `lowest`
abbrev pub negate : ℕ → ℕ
negate n = (modulus - n) % modulus

abbrev pub magnitude : ℕ → ℕ
magnitude n = if is_negative n then modulus - n else n

abbrev signed : Bool → ℕ → ℕ
signed negative n = if negative then negate n else n

abbrev pub wrapping_add : ℕ → ℕ → ℕ
wrapping_add a b = (a + b) % modulus

abbrev pub wrapping_sub : ℕ → ℕ → ℕ
wrapping_sub a b = (a + (modulus - b)) % modulus

abbrev pub wrapping_mul : ℕ → ℕ → ℕ
wrapping_mul a b = a * b % modulus

-- `i64::MIN / -1` and `i64::MIN % -1`
abbrev pub overflows : ℕ → ℕ → Bool
overflows a b = a == lowest && b == modulus - 1

abbrev xor : Bool → Bool → Bool
xor a b = if a then not b else b

-- The quotient is rounded towards 0.
unfoldable pub quotient : ℕ → ℕ → Outcome ℕ
quotient a b =
    if overflows a b
    then panic
    else ok (signed (xor (is_negative a) (is_negative b)) (magnitude a / magnitude b))

-- The remainder has the sign of the dividend.
unfoldable pub remainder : ℕ → ℕ → Outcome ℕ
remainder a b =
    if overflows a b then panic else ok (signed (is_negative a) (magnitude a % magnitude b))

-- The order of the integers is the order of the patterns with the sign bit flipped.
abbrev pub order : ℕ → ℕ
order n = (n + lowest) % modulus
