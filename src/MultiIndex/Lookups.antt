-- ===== src/MultiIndex/Lookups.antt =====
-- What is in the list of a key after each write.
use cypher_lite.Prelude.{
  ℕ, ◌≤◌, ◌≡◌, refl, true, false, not, ◌&&◌, ◌||◌, List, [], ◌∷◌, ◌++◌, arith, ltb, ◌==◌,
  if◌then◌else◌, length, contains, Option-cases, inl, inr,
}
use cypher_lite.OrdMap
use cypher_lite.OrdMap.{OrdMap}
use cypher_lite.OrdMap.Laws.{get-insert, get-remove, get-modify}
use cypher_lite.MultiIndex.{
  list_of, push_new, is_empty, all_but, drop_from, clean_up, drop_from_each,
}

contains-append :
    (xs ys : List ℕ) (a : ℕ) → contains (xs ++ ys) a ≡ (contains xs a || contains ys a)
contains-append [] ys a = refl
contains-append (x ∷ xs) ys a = ground (arith, contains-append xs ys a)

pub contains-all_but :
    (v : ℕ) (xs : List ℕ) (a : ℕ) → contains (all_but v xs) a ≡ (not (v == a) && contains xs a)
contains-all_but v [] a = ground arith
contains-all_but v (x ∷ xs) a = ground (arith, contains-all_but v xs a)

-- The list of a key is empty if nothing is in it.
contains-is_empty : (xs : List ℕ) (a : ℕ) → is_empty xs ≡ true → contains xs a ≡ false
contains-is_empty [] a h = refl
contains-is_empty (x ∷ xs) a h = absurd (ground arith)

length-all_but : (v : ℕ) (xs : List ℕ) → length (all_but v xs) ≤ length xs
length-all_but v [] = omega arith
length-all_but v (x ∷ xs) = ground (arith, length-all_but v xs)

-- `retain` makes a list shorter exactly if the value was in it.
pub shorter-contains :
    (v : ℕ) (xs : List ℕ) → ltb (length (all_but v xs)) (length xs) ≡ contains xs v
shorter-contains v [] = ground arith
shorter-contains v (x ∷ xs) = ground (arith, shorter-contains v xs, length-all_but v xs)

pub contains-push_new :
    (k v : ℕ) (m : OrdMap (List ℕ)) (j x : ℕ)
    → contains (list_of j (push_new k v m)) x ≡ ((k == j && v == x) || contains (list_of j m) x)
unfolding list_of push_new
contains-push_new k v m j x = ground (
  arith,
  get-insert k j (if contains (list_of k m) v then list_of k m else list_of k m ++ (v ∷ [])) m,
  contains-append (list_of k m) (v ∷ []) x,
)

pub contains-drop_from :
    (k v : ℕ) (m : OrdMap (List ℕ)) (j x : ℕ)
    → contains (list_of j (drop_from k v m)) x
      ≡ (not (k == j && v == x) && contains (list_of j m) x)
unfolding list_of drop_from
contains-drop_from k v m j x = elim (Option-cases (OrdMap.get k m)) [
  | inl missing ↦ ground arith
  | inr (vs, found) ↦ ground (
    arith,
    get-remove k j m,
    get-insert k j (all_but v vs) m,
    contains-all_but v vs x,
    contains-is_empty (all_but v vs) x,
  )
]

pub contains-clean_up :
    (k : ℕ) (m : OrdMap (List ℕ)) (j x : ℕ)
    → contains (list_of j (clean_up k m)) x ≡ contains (list_of j m) x
unfolding list_of clean_up
contains-clean_up k m j x = elim (Option-cases (OrdMap.get k m)) [
  | inl missing ↦ ground arith
  | inr (vs, found) ↦ ground (arith, get-remove k j m, contains-is_empty vs x)
]

pub contains-modify :
    (k v : ℕ) (m : OrdMap (List ℕ)) (j x : ℕ)
    → contains (list_of j (OrdMap.modify k (all_but v) m)) x
      ≡ (not (k == j && v == x) && contains (list_of j m) x)
unfolding list_of
contains-modify k v m j x = elim (Option-cases (OrdMap.get j m)) [
  | inl missing ↦ ground (arith, get-modify k j (all_but v) m)
  | inr (vs, found) ↦ ground (arith, get-modify k j (all_but v) m, contains-all_but v vs x)
]

pub contains-drop_from_each :
    (vs : List ℕ) (owner : ℕ) (m : OrdMap (List ℕ)) (j x : ℕ)
    → contains (list_of j (drop_from_each vs owner m)) x
      ≡ (not (contains vs j && owner == x) && contains (list_of j m) x)
unfolding drop_from_each
contains-drop_from_each [] owner m j x = ground arith
contains-drop_from_each (v ∷ vs) owner m j x = ground (
  arith,
  contains-drop_from_each vs owner (drop_from v owner m) j x,
  contains-drop_from v owner m j x,
)

pub contains-remove :
    (k : ℕ) (m : OrdMap (List ℕ)) (j x : ℕ)
    → contains (list_of j (OrdMap.remove k m)) x ≡ (not (k == j) && contains (list_of j m) x)
unfolding list_of
contains-remove k m j x = ground (arith, get-remove k j m)
