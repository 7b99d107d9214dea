-- ===== src/Core/Result.antt =====
-- `cypherlite_core::Result`, with `?` as the bind of a `do` block. `panic` is a call that does not
-- return, such as an index out of bounds.
use cypher_lite.Prelude.{Option, none, some}
use cypher_lite.Core.{CypherLiteError}

pub data Result {ℓ} (T : Type ℓ) : Type ℓ where
  ok : T → Result T
  err : CypherLiteError → Result T
  panic : Result T

-- The operator `?`: an error, or a panic, ends the function.
infixl 5 ◌>>=◌
abbrev pub ◌>>=◌ {ℓ κ} : {T : Type ℓ} {U : Type κ} → Result T → (T → Result U) → Result U
ok value >>= rest = rest value
err error >>= rest = err error
panic >>= rest = panic

-- `Option::ok_or`
abbrev pub ok_or {ℓ} : {T : Type ℓ} → Option T → CypherLiteError → Result T
ok_or none error = err error
ok_or (some value) error = ok value

-- `()`
abbrev pub Done : Type 0
Done = Unit
