-- ===== src/Index/Keys.antt =====
-- crates/cypherlite-storage/src/index/mod.rs: `PropertyValueKey`, the order of property values as keys.
use cypher_lite.Prelude.{
  ℕ, ◌+◌, ◌^◌, ◌≡◌, refl, sym, ap, ◌∙◌, Bool, true, false, List, [], ◌∷◌, ltb, leb, ◌==◌,
  if◌then◌else◌, ==_iff, ==_refl, arith, ◌⊎◌, Bool-cases, inl, inr,
}
use cypher_lite.Core.{
  PropertyValue, PropertyValues, null, bool, int64, float64, string, bytes, array, date_time, nil,
  cons, type_tag,
}

-- `std::cmp::Ordering`
pub data Ordering : Type 0 where
  less same greater : Ordering

-- `cmp` of unsigned integers
abbrev cmp_nat : ℕ → ℕ → Ordering
cmp_nat a b = if a == b then same else if ltb a b then less else greater

-- The sign of an `i64` or an `f64`, from its bits
abbrev is_negative : ℕ → Bool
is_negative a = leb (2 ^ 63) a

-- `cmp` of two `i64`s, in two's complement
abbrev cmp_i64 : ℕ → ℕ → Ordering
cmp_i64 a b =
    if is_negative a
    then (if is_negative b then cmp_nat a b else less)
    else if is_negative b
    then greater
    else cmp_nat a b

-- `f64::total_cmp`: of two negative numbers the one with the larger bits is less.
abbrev total_cmp_f64 : ℕ → ℕ → Ordering
total_cmp_f64 a b =
    if is_negative a
    then (if is_negative b then cmp_nat b a else less)
    else if is_negative b
    then greater
    else cmp_nat a b

abbrev cmp_bool : Bool → Bool → Ordering
cmp_bool false true = less
cmp_bool true false = greater
cmp_bool _ _ = same

abbrev then_cmp : Ordering → Ordering → Ordering
then_cmp same o = o
then_cmp o _ = o

-- `cmp` of strings and of bytes
abbrev cmp_bytes : List ℕ → List ℕ → Ordering
cmp_bytes [] [] = same
cmp_bytes [] (b ∷ bs) = less
cmp_bytes (a ∷ as_) [] = greater
cmp_bytes (a ∷ as_) (b ∷ bs) = then_cmp (cmp_nat a b) (cmp_bytes as_ bs)

abbrev values_len : PropertyValues → ℕ
values_len nil = 0
values_len (cons v vs) = values_len vs + 1

unfoldable mutual
  -- Values of different kinds compare as their tags.
  pub cmp_key : PropertyValue → PropertyValue → Ordering
  cmp_key null null = same
  cmp_key (bool a) (bool b) = cmp_bool a b
  cmp_key (int64 a) (int64 b) = cmp_i64 a b
  cmp_key (float64 a) (float64 b) = total_cmp_f64 a b
  cmp_key (string a) (string b) = cmp_bytes a b
  cmp_key (bytes a) (bytes b) = cmp_bytes a b
  cmp_key (array a) (array b) = then_cmp (cmp_nat (values_len a) (values_len b)) (cmp_each a b)
  cmp_key (date_time a) (date_time b) = cmp_i64 a b
  cmp_key v w = cmp_nat (type_tag v) (type_tag w)

  cmp_each : PropertyValues → PropertyValues → Ordering
  cmp_each (cons a vs) (cons b ws) = then_cmp (cmp_key a b) (cmp_each vs ws)
  cmp_each _ _ = same

-- `eq`
abbrev is_same : Ordering → Bool
is_same same = true
is_same _ = false

unfoldable pub same_key : PropertyValue → PropertyValue → Bool
same_key v w = is_same (cmp_key v w)

is_same-so : (o : Ordering) → is_same o ≡ true → o ≡ same
is_same-so same h = refl
is_same-so _ h = absurd (let clash = h in cc)

cmp_nat-same : (a b : ℕ) → cmp_nat a b ≡ same → a ≡ b
cmp_nat-same a b h = elim (Bool-cases (a == b)) [
  | inl t ↦ (==_iff a b).0 t
  | inr f ↦ elim (Bool-cases (ltb a b)) [
    | inl l ↦ absurd (let clash : less ≡ same = sym (rw (f, l) refl) ∙ h in cc)
    | inr g ↦ absurd (let clash : greater ≡ same = sym (rw (f, g) refl) ∙ h in cc)
  ]
]

cmp_i64-same : (a b : ℕ) → cmp_i64 a b ≡ same → a ≡ b
cmp_i64-same a b h = elim (Bool-cases (is_negative a)) [
  | inl s ↦ elim (Bool-cases (is_negative b)) [
    | inl t ↦ cmp_nat-same a b (sym (rw (s, t) refl) ∙ h)
    | inr t ↦ absurd (let clash : less ≡ same = sym (rw (s, t) refl) ∙ h in cc)
  ]
  | inr s ↦ elim (Bool-cases (is_negative b)) [
    | inl t ↦ absurd (let clash : greater ≡ same = sym (rw (s, t) refl) ∙ h in cc)
    | inr t ↦ cmp_nat-same a b (sym (rw (s, t) refl) ∙ h)
  ]
]

total_cmp_f64-same : (a b : ℕ) → total_cmp_f64 a b ≡ same → a ≡ b
total_cmp_f64-same a b h = elim (Bool-cases (is_negative a)) [
  | inl s ↦ elim (Bool-cases (is_negative b)) [
    | inl t ↦ sym (cmp_nat-same b a (sym (rw (s, t) refl) ∙ h))
    | inr t ↦ absurd (let clash : less ≡ same = sym (rw (s, t) refl) ∙ h in cc)
  ]
  | inr s ↦ elim (Bool-cases (is_negative b)) [
    | inl t ↦ absurd (let clash : greater ≡ same = sym (rw (s, t) refl) ∙ h in cc)
    | inr t ↦ cmp_nat-same a b (sym (rw (s, t) refl) ∙ h)
  ]
]

cmp_bool-same : (a b : Bool) → cmp_bool a b ≡ same → a ≡ b
cmp_bool-same true true h = refl
cmp_bool-same false false h = refl
cmp_bool-same _ _ h = absurd (let clash = h in cc)

then_cmp-same : (o r : Ordering) → then_cmp o r ≡ same → (o ≡ same) × (r ≡ same)
then_cmp-same same r h = (refl, h)
then_cmp-same less r h = absurd (let clash = h in cc)
then_cmp-same greater r h = absurd (let clash = h in cc)

cmp_bytes-same : (xs ys : List ℕ) → cmp_bytes xs ys ≡ same → xs ≡ ys
cmp_bytes-same [] [] h = refl
cmp_bytes-same [] (y ∷ ys) h = absurd (let clash = h in cc)
cmp_bytes-same (x ∷ xs) [] h = absurd (let clash = h in cc)
cmp_bytes-same (x ∷ xs) (y ∷ ys) h =
    let (first, rest) = then_cmp-same _ _ h in
    let at_x = cmp_nat-same x y first in let at_xs = cmp_bytes-same xs ys rest in cc

cmp_bytes_refl : (xs : List ℕ) → cmp_bytes xs xs ≡ same
cmp_bytes_refl [] = refl
cmp_bytes_refl (x ∷ xs) = rw (==_refl x) (cmp_bytes_refl xs)

cmp_nat_refl : (a : ℕ) → cmp_nat a a ≡ same
cmp_nat_refl a = rw (==_refl a) refl

cmp_i64_refl : (a : ℕ) → cmp_i64 a a ≡ same
cmp_i64_refl a = elim (Bool-cases (is_negative a)) [
  | inl s ↦ rw s (cmp_nat_refl a)
  | inr s ↦ rw s (cmp_nat_refl a)
]

mutual
  unfolding cmp_key cmp_each type_tag

  cmp_key-same : (v w : PropertyValue) → cmp_key v w ≡ same → v ≡ w
  cmp_key-same null null h = refl
  cmp_key-same (bool a) (bool b) h = ap bool (cmp_bool-same a b h)
  cmp_key-same (int64 a) (int64 b) h = ap int64 (cmp_i64-same a b h)
  cmp_key-same (float64 a) (float64 b) h = ap float64 (total_cmp_f64-same a b h)
  cmp_key-same (string a) (string b) h = ap string (cmp_bytes-same a b h)
  cmp_key-same (bytes a) (bytes b) h = ap bytes (cmp_bytes-same a b h)
  cmp_key-same (array a) (array b) h =
      let (long, each) = then_cmp-same _ _ h in
      ap array (cmp_each-same a b (cmp_nat-same _ _ long) each)
  cmp_key-same (date_time a) (date_time b) h = ap date_time (cmp_i64-same a b h)
  cmp_key-same _ _ h = absurd (let clash = h in cc)

  cmp_each-same :
      (vs ws : PropertyValues) → values_len vs ≡ values_len ws → cmp_each vs ws ≡ same → vs ≡ ws
  cmp_each-same nil nil l h = refl
  cmp_each-same nil (cons w ws) l h = absurd (omega arith)
  cmp_each-same (cons v vs) nil l h = absurd (omega arith)
  cmp_each-same (cons v vs) (cons w ws) l h =
      let (first, rest) = then_cmp-same _ _ h in
      let at_v = cmp_key-same v w first in let at_vs = cmp_each-same vs ws (omega arith) rest in cc

mutual
  unfolding cmp_key cmp_each

  cmp_key_refl : (v : PropertyValue) → cmp_key v v ≡ same
  cmp_key_refl null = refl
  cmp_key_refl (bool true) = refl
  cmp_key_refl (bool false) = refl
  cmp_key_refl (int64 a) = cmp_i64_refl a
  cmp_key_refl (float64 a) = cmp_i64_refl a
  cmp_key_refl (string a) = cmp_bytes_refl a
  cmp_key_refl (bytes a) = cmp_bytes_refl a
  cmp_key_refl (array a) = rw (cmp_nat_refl (values_len a)) (cmp_each_refl a)
  cmp_key_refl (date_time a) = cmp_i64_refl a

  cmp_each_refl : (vs : PropertyValues) → cmp_each vs vs ≡ same
  cmp_each_refl nil = refl
  cmp_each_refl (cons v vs) = rw (cmp_key_refl v) (cmp_each_refl vs)

pub same_key-equal : (v w : PropertyValue) → same_key v w ≡ true → v ≡ w
unfolding same_key
same_key-equal v w h = cmp_key-same v w (is_same-so (cmp_key v w) h)

pub same_key_refl : (v : PropertyValue) → same_key v v ≡ true
unfolding same_key
same_key_refl v = ap is_same (cmp_key_refl v)

pub Ordering-cases : (o : Ordering) → (o ≡ less) ⊎ (o ≡ same) ⊎ (o ≡ greater)
Ordering-cases less = inl refl
Ordering-cases same = inr (inl refl)
Ordering-cases greater = inr (inr refl)
