-- ===== src/Pool/Segments.antt =====
-- Segments of a doubly linked list, given by two functions, the next and the previous node of a node.
use cypher_lite.Prelude.{ℕ, ◌≡◌, ◌≢◌, ◌⊎◌, inl, inr, refl, sym, ap, subst, ◌∙◌, List, [], ◌∷◌, ◌++◌}

-- `x` is none of the nodes.
abbrev pub Fresh : ℕ → List ℕ → Type 0
Fresh x [] = Unit
Fresh x (y ∷ ys) = (x ≢ y) × Fresh x ys

abbrev pub Distinct : List ℕ → Type 0
Distinct [] = Unit
Distinct (x ∷ xs) = Fresh x xs × Distinct xs

-- No node of the first list is one of the second.
abbrev pub Apart : List ℕ → List ℕ → Type 0
Apart [] ys = Unit
Apart (x ∷ xs) ys = Fresh x ys × Apart xs ys

abbrev pub Member : ℕ → List ℕ → Type 0
Member x [] = ⊥
Member x (y ∷ ys) = (y ≡ x) ⊎ Member x ys

abbrev pub last : ℕ → List ℕ → ℕ
last a [] = a
last a (x ∷ xs) = last x xs

-- From `a` over the nodes of the list to `b`.
abbrev pub Seg : (ℕ → ℕ) → (ℕ → ℕ) → ℕ → List ℕ → ℕ → Type 0
Seg nx pv a [] b = (nx a ≡ b) × (pv b ≡ a)
Seg nx pv a (i ∷ is) b = (nx a ≡ i) × (pv i ≡ a) × Seg nx pv i is b

pub Fresh-append : (x : ℕ) (ys zs : List ℕ) → Fresh x (ys ++ zs) → Fresh x ys × Fresh x zs
Fresh-append x [] zs h = (tt, h)
Fresh-append x (y ∷ ys) zs h = let (a, b) = Fresh-append x ys zs (h.1) in ((h.0, a), b)

pub append-Fresh : (x : ℕ) (ys zs : List ℕ) → Fresh x ys → Fresh x zs → Fresh x (ys ++ zs)
append-Fresh x [] zs h k = k
append-Fresh x (y ∷ ys) zs h k = (h.0, append-Fresh x ys zs (h.1) k)

pub Distinct-append :
    (xs ys : List ℕ) → Distinct (xs ++ ys) → Distinct xs × Distinct ys × Apart xs ys
Distinct-append [] ys h = (tt, h, tt)
Distinct-append (x ∷ xs) ys h =
    let (a, b) = Fresh-append x xs ys (h.0) in
    let (c, d, e) = Distinct-append xs ys (h.1) in ((a, c), d, (b, e))

pub append-Distinct :
    (xs ys : List ℕ) → Distinct xs → Distinct ys → Apart xs ys → Distinct (xs ++ ys)
append-Distinct [] ys h k a = k
append-Distinct (x ∷ xs) ys h k a =
    (append-Fresh x xs ys (h.0) (a.0), append-Distinct xs ys (h.1) k (a.1))

pub last-Apart : (a : ℕ) (xs ys : List ℕ) → Apart (a ∷ xs) ys → Fresh (last a xs) ys
last-Apart a [] ys h = h.0
last-Apart a (x ∷ xs) ys h = last-Apart x xs ys (h.1)

pub last-Fresh : (a x : ℕ) (xs : List ℕ) → Fresh a (x ∷ xs) → a ≢ last x xs
last-Fresh a x [] h = h.0
last-Fresh a x (y ∷ ys) h = last-Fresh a y ys (h.1)

pub Apart-Fresh : (i : ℕ) (xs ys : List ℕ) → Apart xs (i ∷ ys) → Fresh i xs
Apart-Fresh i [] ys h = tt
Apart-Fresh i (x ∷ xs) ys h = ((λ e. (h.0).0 (sym e)), Apart-Fresh i xs ys (h.1))

-- The parts of a list around one of its nodes.
pub Member-split :
    (x : ℕ) (ys : List ℕ)
    → Member x ys
    → (before : List ℕ) × (behind : List ℕ) × (ys ≡ before ++ (x ∷ behind))
Member-split x [] m = elim m [ ]
Member-split x (y ∷ ys) (inl e) = ([], ys, ap (λ z. z ∷ ys) e)
Member-split x (y ∷ ys) (inr m) =
    let (before, behind, e) = Member-split x ys m in (y ∷ before, behind, ap (λ zs. y ∷ zs) e)

pub Member-without :
    (x i : ℕ) (xs ys : List ℕ) → Member x (xs ++ (i ∷ ys)) → x ≢ i → Member x (xs ++ ys)
Member-without x i [] ys (inl e) n = absurd (n (sym e))
Member-without x i [] ys (inr m) n = m
Member-without x i (z ∷ xs) ys (inl e) n = inl e
Member-without x i (z ∷ xs) ys (inr m) n = inr (Member-without x i xs ys m n)

pub Fresh-Member : (x y : ℕ) (ys : List ℕ) → Fresh x ys → Member y ys → y ≢ x
Fresh-Member x y [] h m = elim m [ ]
Fresh-Member x y (z ∷ ys) h (inl e) = λ c. h.0 (sym (e ∙ c))
Fresh-Member x y (z ∷ ys) h (inr m) = Fresh-Member x y ys (h.1) m

pub Member-left : (x : ℕ) (xs ys : List ℕ) → Member x xs → Member x (xs ++ ys)
Member-left x [] ys m = elim m [ ]
Member-left x (z ∷ xs) ys (inl e) = inl e
Member-left x (z ∷ xs) ys (inr m) = inr (Member-left x xs ys m)

pub Member-last : (x : ℕ) (xs : List ℕ) → Member x (xs ++ (x ∷ []))
Member-last x [] = inl refl
Member-last x (z ∷ xs) = inr (Member-last x xs)

pub Member-move :
    (x i : ℕ) (xs ys : List ℕ) → Member x (xs ++ (i ∷ ys)) → Member x ((xs ++ ys) ++ (i ∷ []))
Member-move x i [] ys (inl e) = subst (λ z. Member x (ys ++ (z ∷ []))) (sym e) (Member-last x ys)
Member-move x i [] ys (inr m) = Member-left x ys (i ∷ []) m
Member-move x i (z ∷ xs) ys (inl e) = inl e
Member-move x i (z ∷ xs) ys (inr m) = inr (Member-move x i xs ys m)

-- A node moved behind the rest.
pub Fresh-move :
    (a : ℕ) (xs : List ℕ) (i : ℕ) (ys zs : List ℕ)
    → Fresh a ((xs ++ (i ∷ ys)) ++ zs)
    → Fresh a ((xs ++ ys) ++ (i ∷ zs))
Fresh-move a [] i ys zs h =
    let (f, g) = Fresh-append a ys zs (h.1) in append-Fresh a ys (i ∷ zs) f (h.0, g)
Fresh-move a (x ∷ xs) i ys zs h = (h.0, Fresh-move a xs i ys zs (h.1))

Distinct-insert :
    (i : ℕ) (ys zs : List ℕ) → Fresh i (ys ++ zs) → Distinct (ys ++ zs) → Distinct (ys ++ (i ∷ zs))
Distinct-insert i [] zs f d = (f, d)
Distinct-insert i (y ∷ ys) zs f d =
    let (a, b) = Fresh-append y ys zs (d.0) in
    (append-Fresh y ys (i ∷ zs) a ((λ e. f.0 (sym e)), b), Distinct-insert i ys zs (f.1) (d.1))

pub Distinct-move :
    (xs : List ℕ) (i : ℕ) (ys zs : List ℕ)
    → Distinct ((xs ++ (i ∷ ys)) ++ zs)
    → Distinct ((xs ++ ys) ++ (i ∷ zs))
Distinct-move [] i ys zs h = Distinct-insert i ys zs (h.0) (h.1)
Distinct-move (x ∷ xs) i ys zs h = (Fresh-move x xs i ys zs (h.0), Distinct-move xs i ys zs (h.1))

module _ (nx pv : ℕ → ℕ) where
  pub Seg-prev : (a : ℕ) (is : List ℕ) (b : ℕ) → Seg nx pv a is b → pv b ≡ last a is
  Seg-prev a [] b h = h.1
  Seg-prev a (i ∷ is) b h = Seg-prev i is b (h.2)

  pub Seg-split :
      (a : ℕ) (xs : List ℕ) (i : ℕ) (ys : List ℕ) (b : ℕ)
      → Seg nx pv a (xs ++ (i ∷ ys)) b
      → Seg nx pv a xs i × Seg nx pv i ys b
  Seg-split a [] i ys b h = ((h.0, h.1), h.2)
  Seg-split a (x ∷ xs) i ys b h = let (s, t) = Seg-split x xs i ys b (h.2) in ((h.0, h.1, s), t)

  pub Seg-join :
      (a : ℕ) (xs : List ℕ) (i : ℕ) (ys : List ℕ) (b : ℕ)
      → Seg nx pv a xs i
      → Seg nx pv i ys b
      → Seg nx pv a (xs ++ (i ∷ ys)) b
  Seg-join a [] i ys b s t = (s.0, s.1, t)
  Seg-join a (x ∷ xs) i ys b s t = (s.0, s.1, Seg-join x xs i ys b (s.2) t)

  -- Two other functions, which differ at `p` and at `q`.
  module _ (nx' pv' : ℕ → ℕ) (p q : ℕ) (next_same : (i : ℕ) → i ≢ p → nx' i ≡ nx i)
      (prev_same : (j : ℕ) → j ≢ q → pv' j ≡ pv j) where
    -- A segment with neither of them is still one.
    pub Seg-frame :
        (a : ℕ) (is : List ℕ) (b : ℕ)
        → Fresh p (a ∷ is)
        → Fresh q (is ++ (b ∷ []))
        → Seg nx pv a is b
        → Seg nx' pv' a is b
    Seg-frame a [] b h k s =
        (next_same a (λ e. h.0 (sym e)) ∙ s.0, prev_same b (λ e. k.0 (sym e)) ∙ s.1)
    Seg-frame a (i ∷ is) b h k s = (
      next_same a (λ e. h.0 (sym e)) ∙ s.0,
      prev_same i (λ e. k.0 (sym e)) ∙ s.1,
      Seg-frame i is b (h.1) (k.1) (s.2),
    )

    -- A segment whose last node now goes on to `q`.
    pub Seg-redirect :
        (a : ℕ) (is : List ℕ) (b : ℕ)
        → Distinct (a ∷ is)
        → Fresh q is
        → p ≡ last a is
        → nx' p ≡ q
        → pv' q ≡ p
        → Seg nx pv a is b
        → Seg nx' pv' a is q
    Seg-redirect a [] b d f e n v s = (ap nx' (sym e) ∙ n, v ∙ e)
    Seg-redirect a (i ∷ is) b d f e n v s = (
      next_same a (λ c. last-Fresh a i is (d.0) (c ∙ e)) ∙ s.0,
      prev_same i (λ c. f.0 (sym c)) ∙ s.1,
      Seg-redirect i is b (d.1) (f.1) e n v (s.2),
    )
