-- ===== src/Catalog/Names.antt =====
-- A name and its number determine each other.
use cypher_lite.Prelude.{
  ℕ, ◌+◌, ◌<◌, ◌≡◌, ◌↔◌, refl, sym, ◌∙◌, subst, true, false, none, some, [], ◌∷◌, arith, ◌==◌,
  if◌then◌else◌, u32_mod, Bool-cases, Option-cases, inl, inr, ◌⊎◌,
}
use cypher_lite.OrdMap.Laws.{get-nil, get-insert}
use cypher_lite.Catalog.{
  Name, Namespace, new_namespace, same_name, number_of, create_name, get_or_create, id_by_name,
  name_by_id,
}

same_name_eq : (m n : Name) → same_name m n ≡ true → m ≡ n
unfolding same_name
same_name_eq [] [] h = refl
same_name_eq [] (b ∷ n) h = cc
same_name_eq (a ∷ m) [] h = cc
same_name_eq (a ∷ m) (b ∷ n) h =
    let head : a ≡ b = ground arith in
    let tail = same_name_eq m n (ground arith) in λ i. head i ∷ tail i

pub same_name_refl : (n : Name) → same_name n n ≡ true
unfolding same_name
same_name_refl [] = refl
same_name_refl (a ∷ n) = ground (arith, same_name_refl n)

-- Both maps say the same, and no number in use is at or above the next one.
pub record Agrees (ns : Namespace) : Type 0 where
  pub forth : (n : Name) (i : ℕ) → id_by_name ns n ≡ some i → name_by_id ns i ≡ some n
  pub back : (n : Name) (i : ℕ) → name_by_id ns i ≡ some n → id_by_name ns n ≡ some i
  pub below : (n : Name) (i : ℕ) → name_by_id ns i ≡ some n → i < ns.next_id

id_by_name-create_name :
    (ns : Namespace) (n m : Name)
    → id_by_name (create_name ns n).1 m
      ≡ (if same_name n m then some ns.next_id else id_by_name ns m)
unfolding id_by_name create_name number_of
id_by_name-create_name ns n m = refl

name_by_id-create_name :
    (ns : Namespace) (n : Name) (i : ℕ)
    → name_by_id (create_name ns n).1 i ≡ (if ns.next_id == i then some n else name_by_id ns i)
unfolding name_by_id create_name
name_by_id-create_name ns n i = get-insert ns.next_id i n ns.id_to_name

create_name-Agrees :
    (ns : Namespace) (n : Name)
    → Agrees ns
    → id_by_name ns n ≡ none
    → ns.next_id + 1 < u32_mod
    → Agrees (create_name ns n).1
create_name-Agrees ns n good unused room = record {
  forth = λ m i h. elim (Bool-cases (same_name n m)) [
    | inl same ↦
        let at : ns.next_id ≡ i = ground (arith, id_by_name-create_name ns n m) in
        name_by_id-create_name ns n i ∙ (ground (arith, same_name_eq n m same))
    | inr other ↦
        let old : id_by_name ns m ≡ some i = ground (arith, id_by_name-create_name ns n m) in
        let there = good.forth m i old in
        let lt = good.below m i there in ground (arith, name_by_id-create_name ns n i)
  ];
  back = λ m i h. elim (Bool-cases (ns.next_id == i)) [
    | inl new ↦
        let same : n ≡ m = ground (arith, name_by_id-create_name ns n i) in
        let eq : same_name n m ≡ true = subst (λ x. same_name n x ≡ true) same (same_name_refl n) in
        ground (arith, id_by_name-create_name ns n m)
    | inr older ↦
        let old : name_by_id ns i ≡ some m = ground (arith, name_by_id-create_name ns n i) in
        let there = good.back m i old in
        elim (Bool-cases (same_name n m)) [
          | inl same ↦
              let eq = same_name_eq n m same in
              let clash : id_by_name ns m ≡ none = subst (λ x. id_by_name ns x ≡ none) eq unused in
              absurd (ground arith)
          | inr other ↦ ground (arith, id_by_name-create_name ns n m)
        ]
  ];
  below =
      λ m i h. unfold create_name in ground (arith, name_by_id-create_name ns n i, good.below m i);
}

get_or_create-cases :
    (ns : Namespace) (n : Name)
    → ((i : ℕ) × (id_by_name ns n ≡ some i) × (get_or_create ns n ≡ (i, ns)))
      ⊎ ((id_by_name ns n ≡ none) × (get_or_create ns n ≡ create_name ns n))
unfolding id_by_name get_or_create
get_or_create-cases ns n = elim (Option-cases (number_of n ns.name_to_id)) [
  | inl unused ↦ inr (unused, rw (get_or_create, unused) refl)
  | inr (i, found) ↦ inl (i, found, rw (get_or_create, found) refl)
]

-- The namespaces that come about while there are numbers.
pub data Named : Namespace → Type 0 where
  starts : Named new_namespace
  names :
      (ns : Namespace) (n : Name)
      → Named ns
      → ns.next_id + 1 < u32_mod
      → Named (get_or_create ns n).1

Named-Agrees : (ns : Namespace) → Named ns → Agrees ns
Named-Agrees _ starts = record {
  forth = λ n i h. unfold id_by_name number_of in cc;
  back = λ n i h. unfold name_by_id in absurd (ground (arith, get-nil {V = Name} i));
  below = λ n i h. unfold name_by_id in absurd (ground (arith, get-nil {V = Name} i));
}
Named-Agrees _ (names ns n before room) =
    let good = Named-Agrees ns before in
    elim (get_or_create-cases ns n) [
      | inl (i, found, e) ↦ subst (λ r. Agrees r.1) (sym e) good
      | inr (unused, e) ↦ subst (λ r. Agrees r.1) (sym e) (create_name-Agrees ns n good unused room)
    ]

-- In every namespace that comes about, a name has a number exactly if the number has that name.
pub id_by_name-name_by_id :
    (ns : Namespace) (n : Name) (i : ℕ)
    → Named ns
    → (id_by_name ns n ≡ some i) ↔ (name_by_id ns i ≡ some n)
id_by_name-name_by_id ns n i named =
    let good = Named-Agrees ns named in (good.forth n i, good.back n i)

-- `get_or_create` returns the number that the name has afterwards, and a name that had a number keeps
-- it.
pub id_by_name-get_or_create :
    (ns : Namespace) (n m : Name) (i : ℕ)
    → id_by_name ns m ≡ some i
    → (id_by_name (get_or_create ns n).1 n ≡ some (get_or_create ns n).0)
      × (id_by_name (get_or_create ns n).1 m ≡ some i)
id_by_name-get_or_create ns n m i h = elim (get_or_create-cases ns n) [
  | inl (j, found, e) ↦ rw e (found, h)
  | inr (unused, e) ↦
      let kept : same_name n m ≡ false = elim (Bool-cases (same_name n m)) [
        | inl same ↦
            let clash : id_by_name ns m ≡ none =
              subst (λ x. id_by_name ns x ≡ none) (same_name_eq n m same) unused in
            absurd (ground arith)
        | inr other ↦ other
      ] in
      rw e (
        id_by_name-create_name ns n n ∙ (unfold create_name in rw (same_name_refl n) refl),
        id_by_name-create_name ns n m ∙ (rw kept h),
      )
]
