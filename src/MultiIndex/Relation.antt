-- ===== src/MultiIndex/Relation.antt =====
-- The specification: both lists represent one relation between owners and members, and each operation
-- is an operation on the relation.
use cypher_lite.Prelude.{
  ℕ, ◌≡◌, refl, sym, ap, ◌∙◌, Bool, false, not, ◌&&◌, ◌||◌, arith, ◌==◌, contains, Bool-cases,
  Option-cases, inl, inr,
}
use cypher_lite.OrdMap
use cypher_lite.MultiIndex.{
  MultiIndex, new_index, list_of, all_but, add, is_removed, remove, remove_all, members, owners,
}
use cypher_lite.MultiIndex.Lookups.{
  contains-push_new, contains-drop_from, contains-clean_up, contains-modify,
  contains-drop_from_each, contains-remove, shorter-contains,
}

abbrev pub Related : Type 0
Related = ℕ → ℕ → Bool

-- The members of an owner and the owners of a member agree with the relation.
pub record Represents (i : MultiIndex) (r : Related) : Type 0 where
  pub by_owner : (a b : ℕ) → contains (members i a) b ≡ r a b
  pub by_member : (a b : ℕ) → contains (owners i b) a ≡ r a b

pub new_index-Represents : Represents new_index (λ a b. false)
unfolding members owners list_of
new_index-Represents = record {
  by_owner = λ a b. unfold OrdMap.get in refl;
  by_member = λ a b. unfold OrdMap.get in refl;
}

abbrev pub with_pair : ℕ → ℕ → Related → Related
with_pair owner member r a b = (owner == a && member == b) || r a b

abbrev pub without_pair : ℕ → ℕ → Related → Related
without_pair owner member r a b = not (owner == a && member == b) && r a b

abbrev pub without_owner : ℕ → Related → Related
without_owner owner r a b = not (owner == a) && r a b

-- `add` puts one pair into the relation.
pub add-Represents :
    (i : MultiIndex) (r : Related) (owner member : ℕ)
    → Represents i r
    → Represents (add i owner member) (with_pair owner member r)
unfolding add members owners
add-Represents i r owner member rep = record {
  by_owner = λ a b.
      contains-push_new owner member i.forward a b
      ∙ ap (λ x. (owner == a && member == b) || x) (rep.by_owner a b);
  by_member = λ a b.
      let old : contains (list_of b i.reverse) a ≡ r a b = rep.by_member a b in
      ground (arith, contains-push_new member owner i.reverse b a);
}

is_removed-contains :
    (i : MultiIndex) (owner member : ℕ)
    → is_removed i owner member ≡ contains (list_of owner i.forward) member
unfolding is_removed list_of
is_removed-contains i owner member = elim (Option-cases (OrdMap.get owner i.forward)) [
  | inl missing ↦ ground arith
  | inr (fwd, found) ↦ ground (arith, shorter-contains member fwd)
]

-- Nothing changes where the pair is not.
absent_pair :
    (r : Related) (owner member : ℕ)
    → r owner member ≡ false
    → (a b : ℕ) → r a b ≡ without_pair owner member r a b
absent_pair r owner member absent a b = elim (Bool-cases (owner == a && member == b)) [
  | inl same ↦
      let one : owner ≡ a = ground arith in
      let two : member ≡ b = ground arith in
      let here : r a b ≡ false = sym (ap (r owner) two ∙ ap (λ x. r x b) one) ∙ absent in
      rw (same, here) refl
  | inr other ↦ rw other refl
]

absent_owner :
    (r : Related) (owner a b : ℕ)
    → (not (r owner b && owner == a) && r a b) ≡ without_owner owner r a b
absent_owner r owner a b = elim (Bool-cases (owner == a)) [
  | inl same ↦
      let one : owner ≡ a = ground arith in
      let here : r owner b ≡ r a b = ap (λ x. r x b) one in ground arith
  | inr other ↦ ground arith
]

-- `remove` tells whether the pair was in the relation, and takes it out.
pub remove-Represents :
    (i : MultiIndex) (r : Related) (owner member : ℕ)
    → Represents i r
    → ((remove i owner member).0 ≡ r owner member)
      × Represents (remove i owner member).1 (without_pair owner member r)
unfolding remove members owners
remove-Represents i r owner member rep =
    let was : is_removed i owner member ≡ r owner member =
      is_removed-contains i owner member ∙ rep.by_owner owner member in
    let forward = OrdMap.modify owner (all_but member) i.forward in
    let left : (a b : ℕ) → contains (list_of a forward) b ≡ without_pair owner member r a b = λ a b.
      contains-modify owner member i.forward a b
      ∙ ap (λ x. not (owner == a && member == b) && x) (rep.by_owner a b) in
    elim (Bool-cases (is_removed i owner member)) [
      | inl removed ↦
          rw (remove, removed)
            (
              sym removed ∙ was,
              record {
                by_owner = λ a b. contains-clean_up owner forward a b ∙ left a b;
                by_member = λ a b.
                    let old : contains (list_of b i.reverse) a ≡ r a b = rep.by_member a b in
                    ground (arith, contains-drop_from member owner i.reverse b a);
              },
            )
      | inr kept ↦
          rw (remove, kept)
            (
              sym kept ∙ was,
              record {
                by_owner = left;
                by_member = λ a b.
                    let old : contains (list_of b i.reverse) a ≡ r a b = rep.by_member a b in
                    let none_there : r owner member ≡ false = sym was ∙ kept in
                    old ∙ absent_pair r owner member none_there a b;
              },
            )
    ]

-- `remove_all` returns the members of an owner, and takes the owner out of the relation.
pub remove_all-Represents :
    (i : MultiIndex) (r : Related) (owner : ℕ)
    → Represents i r
    → ((b : ℕ) → contains (remove_all i owner).0 b ≡ r owner b)
      × Represents (remove_all i owner).1 (without_owner owner r)
unfolding remove_all members owners
remove_all-Represents i r owner rep = (
  rep.by_owner owner,
  record {
    by_owner = λ a b.
        contains-remove owner i.forward a b ∙ ap (λ x. not (owner == a) && x) (rep.by_owner a b);
    by_member = λ a b.
        let old : contains (list_of b i.reverse) a ≡ r a b = rep.by_member a b in
        let there : contains (list_of owner i.forward) b ≡ r owner b = rep.by_owner owner b in
        contains-drop_from_each (list_of owner i.forward) owner i.reverse b a
        ∙ (rw (there, old) (absent_owner r owner a b));
  },
)
