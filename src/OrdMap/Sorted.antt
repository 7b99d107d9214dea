-- ===== src/OrdMap/Sorted.antt =====
-- The order of the keys, which every operation keeps.
use cypher_lite.Prelude.{ℕ, ◌<◌, [], ◌∷◌, arith}
use cypher_lite.OrdMap.{OrdMap, insert, remove}

module _ {ℓ} {V : Type ℓ} where
  -- every key is above `k`
  abbrev pub Above : ℕ → OrdMap V → Type 0
  Above k [] = Unit
  Above k ((j, v) ∷ m) = (k < j) × Above k m

  abbrev pub IsSorted : OrdMap V → Type 0
  IsSorted [] = Unit
  IsSorted ((k, v) ∷ m) = Above k m × IsSorted m

  Above-mono : (a b : ℕ) (m : OrdMap V) → a < b → Above b m → Above a m
  Above-mono a b [] h p = tt
  Above-mono a b ((j, v) ∷ m) h p = (omega arith, Above-mono a b m h p.1)

  Above-insert : (a k : ℕ) (v : V) (m : OrdMap V) → a < k → Above a m → Above a (insert k v m)
  unfolding insert
  Above-insert a k v [] h p = (h, tt)
  Above-insert a k v ((j, w) ∷ m) h p = ground (arith, Above-insert a k v m)

  Above-remove : (a k : ℕ) (m : OrdMap V) → Above a m → Above a (remove k m)
  unfolding remove
  Above-remove a k [] p = tt
  Above-remove a k ((j, w) ∷ m) p = ground (arith, Above-remove a k m)

  pub insert-IsSorted : (k : ℕ) (v : V) (m : OrdMap V) → IsSorted m → IsSorted (insert k v m)
  unfolding insert
  insert-IsSorted k v [] s = (tt, tt)
  insert-IsSorted k v ((j, w) ∷ m) s =
      ground (arith, insert-IsSorted k v m, Above-insert j k v m, Above-mono k j m)

  pub remove-IsSorted : (k : ℕ) (m : OrdMap V) → IsSorted m → IsSorted (remove k m)
  unfolding remove
  remove-IsSorted k [] s = tt
  remove-IsSorted k ((j, w) ∷ m) s = ground (arith, remove-IsSorted k m, Above-remove j k m)
