-- ===== src/Index/Lookup.antt =====
-- A property index after any sequence of insertions and removals (index/mod.rs and edge_index.rs).
use cypher_lite.Prelude.{
  ℕ, ◌≡◌, ◌↔◌, refl, sym, ap, ◌∙◌, true, false, ◌&&◌, List, [], ◌∷◌, ◌++◌, ◌==◌, if◌then◌else◌,
  Bool-cases, inl, inr,
}
use cypher_lite.Core.{PropertyValue}
use cypher_lite.Index.Keys.{cmp_key, same_key, same_key-equal, same_key_refl, Ordering-cases}
use cypher_lite.Index.Entries.{
  Tree, ids_of, has_key, modify_ids, place_key, remove_key, enter, withdraw, others, is_empty,
}

-- The pairs of a value and an id that were inserted and not removed, the oldest first.
abbrev pub Pairs : Type 0
Pairs = List (PropertyValue × ℕ)

-- The ids that were inserted with a value.
abbrev pub ids_with : PropertyValue → Pairs → List ℕ
ids_with w [] = []
ids_with w ((v, id) ∷ ps) = if same_key v w then id ∷ ids_with w ps else ids_with w ps

abbrev pub without_pair : PropertyValue → ℕ → Pairs → Pairs
without_pair w id [] = []
without_pair w id ((v, i) ∷ ps) =
    if same_key v w && (i == id) then without_pair w id ps else (v, i) ∷ without_pair w id ps

-- The entries after some insertions and removals, with the pairs that are left.
pub data Entered : Tree → Pairs → Type 0 where
  starts : Entered [] []
  enters :
      (t : Tree) (ps : Pairs) (w : PropertyValue) (id : ℕ)
      → Entered t ps
      → Entered (enter w id t) (ps ++ ((w, id) ∷ []))
  leaves :
      (t : Tree) (ps : Pairs) (w : PropertyValue) (id : ℕ)
      → Entered t ps
      → Entered (withdraw w id t) (without_pair w id ps)

-- A key that is the same as another is the same as all that the other is the same as.
same_key-via : (u v w : PropertyValue) → same_key u v ≡ true → same_key v w ≡ same_key u w
same_key-via u v w h = ap (λ x. same_key x w) (sym (same_key-equal u v h))

apart : (u v w : PropertyValue) → same_key u v ≡ false → same_key u w ≡ true → same_key v w ≡ false
apart u v w f t = elim (Bool-cases (same_key v w)) [
  | inr g ↦ g
  | inl g ↦
      let e : v ≡ w = same_key-equal v w g in
      let clash : true ≡ false = sym t ∙ sym (ap (same_key u) e) ∙ f in absurd (let c = clash in cc)
]

ids_of-modify_ids :
    (f : List ℕ → List ℕ) (v w : PropertyValue) (t : Tree)
    → has_key v t ≡ true
    → ids_of w (modify_ids f v t) ≡ (if same_key v w then f (ids_of w t) else ids_of w t)
unfolding ids_of modify_ids has_key
ids_of-modify_ids f v w [] h = absurd (let clash = h in cc)
ids_of-modify_ids f v w ((u, ids) ∷ t) h = elim (Bool-cases (same_key u v)) [
  | inl a ↦
      rw (a, same_key-via u v w a)
        (elim (Bool-cases (same_key u w)) [ inl b ↦ rw b refl | inr b ↦ rw b refl ])
  | inr a ↦ elim (Bool-cases (same_key u w)) [
    | inl b ↦ rw (a, b, apart u v w a b) refl
    | inr b ↦ rw (a, b) (ids_of-modify_ids f v w t (sym (rw a refl) ∙ h))
  ]
]

ids_of-absent : (v : PropertyValue) (t : Tree) → has_key v t ≡ false → ids_of v t ≡ []
unfolding ids_of has_key
ids_of-absent v [] h = refl
ids_of-absent v ((u, ids) ∷ t) h = elim (Bool-cases (same_key u v)) [
  | inl a ↦ absurd (let clash : true ≡ false = sym (rw a refl) ∙ h in cc)
  | inr a ↦ rw a (ids_of-absent v t (sym (rw a refl) ∙ h))
]

ids_of-place_key :
    (v w : PropertyValue) (id : ℕ) (t : Tree)
    → has_key v t ≡ false
    → ids_of w (place_key v id t) ≡ (if same_key v w then id ∷ [] else ids_of w t)
unfolding ids_of place_key has_key
ids_of-place_key v w id [] h = refl
ids_of-place_key v w id ((u, ids) ∷ t) h = elim (Bool-cases (same_key u v)) [
  | inl a ↦ absurd (let clash : true ≡ false = sym (rw a refl) ∙ h in cc)
  | inr a ↦
      let rest = ids_of-place_key v w id t (sym (rw a refl) ∙ h) in
      elim (Ordering-cases (cmp_key v u)) [
        | inl e ↦ rw (place_key, e) refl
        | inr (inl e) ↦ rw (place_key, e) refl
        | inr (inr e) ↦
            rw (place_key, e)
              (elim (Bool-cases (same_key u w)) [
                | inl b ↦ rw (b, apart u v w a b) refl
                | inr b ↦ rw b rest
              ])
      ]
]

ids_of-remove_key :
    (v w : PropertyValue) (t : Tree)
    → ids_of w (remove_key v t) ≡ (if same_key v w then [] else ids_of w t)
unfolding ids_of remove_key
ids_of-remove_key v w [] = elim (Bool-cases (same_key v w)) [
  | inl a ↦ rw a refl
  | inr a ↦ rw a refl
]
ids_of-remove_key v w ((u, ids) ∷ t) = elim (Bool-cases (same_key u v)) [
  | inl a ↦
      let step : ids_of w (remove_key v ((u, ids) ∷ t)) ≡ ids_of w (remove_key v t) = rw a refl in
      step
      ∙ ids_of-remove_key v w t
      ∙ rw (same_key-via u v w a)
          (elim (Bool-cases (same_key u w)) [ inl b ↦ rw b refl | inr b ↦ rw b refl ])
  | inr a ↦ elim (Bool-cases (same_key u w)) [
    | inl b ↦ rw (a, b, apart u v w a b) refl
    | inr b ↦ rw (a, b) (ids_of-remove_key v w t)
  ]
]

ids_of-same : (v w : PropertyValue) (t : Tree) → same_key v w ≡ true → ids_of w t ≡ ids_of v t
ids_of-same v w t h = ap (λ x. ids_of x t) (sym (same_key-equal v w h))

ids_of-enter :
    (v w : PropertyValue) (id : ℕ) (t : Tree)
    → ids_of w (enter v id t) ≡ (if same_key v w then ids_of w t ++ (id ∷ []) else ids_of w t)
unfolding enter
ids_of-enter v w id t = elim (Bool-cases (has_key v t)) [
  | inl h ↦ rw (enter, h) (ids_of-modify_ids (λ ids. ids ++ (id ∷ [])) v w t h)
  | inr h ↦
      let placed : ids_of w (enter v id t) ≡ (if same_key v w then id ∷ [] else ids_of w t) =
        rw (enter, h) (ids_of-place_key v w id t h) in
      elim (Bool-cases (same_key v w)) [
        | inl s ↦
            let none_yet : ids_of w t ≡ [] = ids_of-same v w t s ∙ ids_of-absent v t h in
            placed ∙ rw (s, none_yet) refl
        | inr s ↦ placed ∙ rw s refl
      ]
]

is_empty-so : (ids : List ℕ) → is_empty ids ≡ true → ids ≡ []
is_empty-so [] h = refl
is_empty-so (x ∷ xs) h = absurd (let clash = h in cc)

ids_of-withdraw :
    (v w : PropertyValue) (id : ℕ) (t : Tree)
    → ids_of w (withdraw v id t) ≡ (if same_key v w then others id (ids_of w t) else ids_of w t)
unfolding withdraw
ids_of-withdraw v w id t = elim (Bool-cases (has_key v t)) [
  | inr h ↦
      let kept : ids_of w (withdraw v id t) ≡ ids_of w t = rw (withdraw, h) refl in
      elim (Bool-cases (same_key v w)) [
        | inl s ↦
            let none_yet : ids_of w t ≡ [] = ids_of-same v w t s ∙ ids_of-absent v t h in
            kept ∙ rw (s, none_yet) refl
        | inr s ↦ kept ∙ rw s refl
      ]
  | inl h ↦
      let shorter : Tree = modify_ids (others id) v t in
      let changed = ids_of-modify_ids (others id) v w t h in
      elim (Bool-cases (is_empty (ids_of v shorter))) [
        | inr e ↦
            let left : ids_of w (withdraw v id t) ≡ ids_of w shorter = rw (withdraw, h, e) refl in
            left ∙ changed
        | inl e ↦
            let left : ids_of w (withdraw v id t) ≡ ids_of w (remove_key v shorter) =
              rw (withdraw, h, e) refl in
            left ∙ ids_of-remove_key v w shorter ∙ elim (Bool-cases (same_key v w)) [
              | inl s ↦
                  let gone : ids_of w shorter ≡ [] =
                    ids_of-same v w shorter s ∙ is_empty-so (ids_of v shorter) e in
                  rw s (sym gone ∙ changed ∙ rw s refl)
              | inr s ↦ rw s (changed ∙ rw s refl)
            ]
      ]
]

ids_with-append :
    (v w : PropertyValue) (id : ℕ) (ps : Pairs)
    → ids_with w (ps ++ ((v, id) ∷ []))
      ≡ (if same_key v w then ids_with w ps ++ (id ∷ []) else ids_with w ps)
ids_with-append v w id [] = refl
ids_with-append v w id ((u, i) ∷ ps) = elim (Bool-cases (same_key u w)) [
  | inl a ↦ rw a (
      ap (λ r. i ∷ r) (ids_with-append v w id ps)
      ∙ elim (Bool-cases (same_key v w)) [ inl b ↦ rw b refl | inr b ↦ rw b refl ])
  | inr a ↦ rw a (ids_with-append v w id ps)
]

ids_with-without_pair :
    (v w : PropertyValue) (id : ℕ) (ps : Pairs)
    → ids_with w (without_pair v id ps)
      ≡ (if same_key v w then others id (ids_with w ps) else ids_with w ps)
ids_with-without_pair v w id [] = elim (Bool-cases (same_key v w)) [
  | inl b ↦ rw b refl
  | inr b ↦ rw b refl
]
ids_with-without_pair v w id ((u, i) ∷ ps) =
    let rest = ids_with-without_pair v w id ps in
    elim (Bool-cases (same_key u v)) [
      | inl a ↦
          let via = same_key-via u v w a in
          elim (Bool-cases (same_key u w)) [
            | inl b ↦
                let rest_v : ids_with w (without_pair v id ps) ≡ others id (ids_with w ps) =
                  rest ∙ rw (via, b) refl in
                elim (Bool-cases (i == id)) [
                  | inl c ↦ rw (a, via, b, c) rest_v
                  | inr c ↦ rw (a, via, b, c, b) (ap (λ r. i ∷ r) rest_v)
                ]
            | inr b ↦
                let rest_v : ids_with w (without_pair v id ps) ≡ ids_with w ps =
                  rest ∙ rw (via, b) refl in
                elim (Bool-cases (i == id)) [
                  | inl c ↦ rw (a, via, b, c) rest_v
                  | inr c ↦ rw (a, via, b, c, b) rest_v
                ]
          ]
      | inr a ↦ elim (Bool-cases (same_key u w)) [
        | inl b ↦
            let off = apart u v w a b in
            let rest_v : ids_with w (without_pair v id ps) ≡ ids_with w ps = rest ∙ rw off refl in
            rw (a, b, off) (ap (λ r. i ∷ r) rest_v)
        | inr b ↦ rw (a, b) rest
      ]
    ]

ids_with-Entered :
    (t : Tree) (ps : Pairs) (w : PropertyValue) → Entered t ps → ids_of w t ≡ ids_with w ps
unfolding ids_of
ids_with-Entered _ _ w starts = refl
ids_with-Entered _ _ w (enters t ps v id r) =
    ids_of-enter v w id t
    ∙ ap (λ x. if same_key v w then x ++ (id ∷ []) else x) (ids_with-Entered t ps w r)
    ∙ sym (ids_with-append v w id ps)
ids_with-Entered _ _ w (leaves t ps v id r) =
    ids_of-withdraw v w id t
    ∙ ap (λ x. if same_key v w then others id x else x) (ids_with-Entered t ps w r)
    ∙ sym (ids_with-without_pair v w id ps)

-- Whatever pairs of a value and an id are put into a property index or an edge property index and taken
-- out of it, in any order: a lookup of a value gives the ids of the pairs with the same key that were put
-- in and not taken out, in the order in which they were put in; and two values have the same key exactly
-- if they are equal, bit by bit for floats.
pub ids_of-Entered :
    (t : Tree) (ps : Pairs) (w : PropertyValue)
    → Entered t ps
    → (ids_of w t ≡ ids_with w ps) × ((v : PropertyValue) → (same_key v w ≡ true) ↔ (v ≡ w))
ids_of-Entered t ps w r = (
  ids_with-Entered t ps w r,
  λ v. (same_key-equal v w, λ e. ap (λ x. same_key x w) e ∙ same_key_refl w),
)
