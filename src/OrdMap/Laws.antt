-- ===== src/OrdMap/Laws.antt =====
-- The map laws of `OrdMap`: what a read sees after a write.
use cypher_lite.Prelude.{ℕ, ◌≡◌, refl, none, some, [], ◌∷◌, arith, ◌==◌, if◌then◌else◌}
use mathlib.Core.Option
use cypher_lite.OrdMap.{OrdMap, get, insert, remove, modify}

module _ {ℓ} {V : Type ℓ} where
  pub get-insert :
      (k j : ℕ) (v : V) (m : OrdMap V) → get j (insert k v m) ≡ (if k == j then some v else get j m)
  unfolding get insert
  get-insert k j v [] = refl
  get-insert k j v ((i, w) ∷ m) = ground (arith, get-insert k j v m)

  pub get-remove :
      (k j : ℕ) (m : OrdMap V) → get j (remove k m) ≡ (if k == j then none else get j m)
  unfolding get remove
  get-remove k j [] = ground arith
  get-remove k j ((i, w) ∷ m) = ground (arith, get-remove k j m)

  pub get-modify :
      (k j : ℕ) (f : V → V) (m : OrdMap V)
      → get j (modify k f m) ≡ (if k == j then Option.map f (get j m) else get j m)
  unfolding get modify
  get-modify k j f [] = ground arith
  get-modify k j f ((i, w) ∷ m) = ground (arith, get-modify k j f m)

  pub get-nil : (j : ℕ) → get {V = V} j [] ≡ none
  unfolding get
  get-nil j = refl

pub ruleset map_laws = (get-nil, get-insert, get-remove, get-modify)
