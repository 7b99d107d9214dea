-- ===== src/MultiIndex.antt =====
-- The code that crates/cypherlite-storage/src/subgraph/membership.rs and hyperedge/reverse_index.rs
-- share word for word: a relation kept twice, from the owner to its members and from the member to
-- its owners.
pub mod Lookups
pub mod Relation
use cypher_lite.Prelude.{
  ℕ, Bool, true, false, not, Option, none, some, List, [], ◌∷◌, ◌++◌, ltb, ◌==◌, if◌then◌else◌,
  length, retain, contains,
}
use cypher_lite.OrdMap
use cypher_lite.OrdMap.{OrdMap}

pub record MultiIndex : Type 0 where
  pub forward : OrdMap (List ℕ)
  pub reverse : OrdMap (List ℕ)

abbrev pub new_index : MultiIndex
new_index = record { forward = []; reverse = [] }

-- `get(k)` with the default of a missing key
unfoldable pub list_of : ℕ → OrdMap (List ℕ) → List ℕ
list_of k m = elim (OrdMap.get k m) [ none ↦ [] | some vs ↦ vs ]

-- `entry(k).or_default()`, then `push(v)` unless it is there
unfoldable pub push_new : ℕ → ℕ → OrdMap (List ℕ) → OrdMap (List ℕ)
unfolding list_of
push_new k v m =
    let vs = list_of k m in OrdMap.insert k (if contains vs v then vs else vs ++ (v ∷ [])) m

abbrev pub is_empty : List ℕ → Bool
is_empty [] = true
is_empty (v ∷ vs) = false

-- `retain(|&id| id != v)`
abbrev pub all_but : ℕ → List ℕ → List ℕ
all_but v vs = retain (λ x. not (x == v)) vs

-- `retain` on the list of `k`, which goes when it is empty
unfoldable pub drop_from : ℕ → ℕ → OrdMap (List ℕ) → OrdMap (List ℕ)
drop_from k v m = elim (OrdMap.get k m) [
  | none ↦ m
  | some vs ↦
      if is_empty (all_but v vs) then OrdMap.remove k m else OrdMap.insert k (all_but v vs) m
]

-- The list of `k` goes if it is empty.
unfoldable pub clean_up : ℕ → OrdMap (List ℕ) → OrdMap (List ℕ)
clean_up k m = elim (OrdMap.get k m) [
  | none ↦ m
  | some vs ↦ if is_empty vs then OrdMap.remove k m else m
]

unfoldable pub add : MultiIndex → ℕ → ℕ → MultiIndex
add i owner member = record {
  forward = push_new owner member i.forward;
  reverse = push_new member owner i.reverse;
}

-- Whether `retain` made the list of the owner shorter.
unfoldable pub is_removed : MultiIndex → ℕ → ℕ → Bool
is_removed i owner member = elim (OrdMap.get owner i.forward) [
  | none ↦ false
  | some fwd ↦ ltb (length (all_but member fwd)) (length fwd)
]

unfoldable pub remove : MultiIndex → ℕ → ℕ → Bool × MultiIndex
remove i owner member =
    let forward = OrdMap.modify owner (all_but member) i.forward in
    if is_removed i owner member
    then (
      true,
      record { forward = clean_up owner forward; reverse = drop_from member owner i.reverse },
    )
    else (false, record i { forward = forward })

-- The loop over the members.
unfoldable pub drop_from_each : List ℕ → ℕ → OrdMap (List ℕ) → OrdMap (List ℕ)
drop_from_each [] owner m = m
drop_from_each (member ∷ members) owner m = drop_from_each members owner (drop_from member owner m)

unfoldable pub remove_all : MultiIndex → ℕ → List ℕ × MultiIndex
remove_all i owner =
    let members = list_of owner i.forward in
    (
      members,
      record {
        forward = OrdMap.remove owner i.forward;
        reverse = drop_from_each members owner i.reverse;
      },
    )

unfoldable pub members : MultiIndex → ℕ → List ℕ
members i owner = list_of owner i.forward

unfoldable pub owners : MultiIndex → ℕ → List ℕ
owners i member = list_of member i.reverse
