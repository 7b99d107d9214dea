-- ===== src/OrdMap.antt =====
-- `BTreeMap<u64, V>` of the standard library: the entries in the order of their keys.
pub mod Laws
pub mod Sorted
use cypher_lite.Prelude.{
  ℕ, Option, none, some, Bool, true, false, List, [], ◌∷◌, ltb, ◌==◌, if◌then◌else◌, length,
}

abbrev pub OrdMap {ℓ} : Type ℓ → Type ℓ
OrdMap V = List (ℕ × V)

module _ {ℓ} {V : Type ℓ} where
  -- `get`, `get_mut` as a read
  unfoldable pub get : ℕ → OrdMap V → Option V
  get k [] = none
  get k ((j, v) ∷ m) = if j == k then some v else get k m

  -- `insert`: replaces the value of a key that is there
  unfoldable pub insert : ℕ → V → OrdMap V → OrdMap V
  insert k v [] = (k, v) ∷ []
  insert k v ((j, w) ∷ m) =
      if j == k then (k, v) ∷ m else if ltb k j then (k, v) ∷ (j, w) ∷ m else (j, w) ∷ insert k v m

  -- `remove`
  unfoldable pub remove : ℕ → OrdMap V → OrdMap V
  remove k [] = []
  remove k ((j, v) ∷ m) = if j == k then remove k m else (j, v) ∷ remove k m

  -- `len`
  abbrev pub len : OrdMap V → ℕ
  len m = length m

  -- `values` that pass a test, in key order
  unfoldable pub values_where : (V → Bool) → OrdMap V → List V
  values_where p [] = []
  values_where p ((k, v) ∷ m) = if p v then v ∷ values_where p m else values_where p m

  -- `range` and `iter().filter`: the entries that pass a test, in key order
  unfoldable pub entries_where : (ℕ → V → Bool) → OrdMap V → OrdMap V
  entries_where p [] = []
  entries_where p ((k, v) ∷ m) = if p k v then (k, v) ∷ entries_where p m else entries_where p m

  -- A write through the reference of `get_mut`: nothing happens to a missing key.
  unfoldable pub modify : ℕ → (V → V) → OrdMap V → OrdMap V
  modify k f [] = []
  modify k f ((j, v) ∷ m) = if j == k then (j, f v) ∷ m else (j, v) ∷ modify k f m

  unfoldable pub entry_or : ℕ → V → OrdMap V → V
  unfolding get
  entry_or k d m = elim (get k m) [ none ↦ d | some v ↦ v ]
