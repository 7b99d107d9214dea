-- ===== src/Pool/Places.antt =====
-- Where the map of an `LruList` says that pages are (page/buffer_pool.rs).
use cypher_lite.Prelude.{
  ℕ, ◌<◌, ◌≡◌, ◌≢◌, refl, sym, ap, subst, ◌∙◌, false, Option, none, some, List, [], ◌∷◌, ◌++◌,
  arith, length, map, ◌==◌, ==_iff, Bool-cases, inl, inr,
}
use cypher_lite.OrdMap
use cypher_lite.OrdMap.{OrdMap}
use cypher_lite.OrdMap.Laws.{get-remove}
use cypher_lite.Pool.Lru.{LruNode, tail}
use cypher_lite.Pool.Segments.{Fresh, Seg}
use cypher_lite.Pool.Links.{Inside, Inside-append, append-Inside, other}
use cypher_lite.Pool.Fields.{next_of, prev_of, page_of}
use cypher_lite.Pool.Recency.{Placed, without}

-- No node of the list is the one found.
abbrev pub Misses : Option ℕ → List ℕ → Type 0
Misses o [] = Unit
Misses o (z ∷ zs) = (o ≢ some z) × Misses o zs

pub Misses-none : (zs : List ℕ) → Misses none zs
Misses-none [] = tt
Misses-none (z ∷ zs) = ((λ e. let clash = e in cc), Misses-none zs)

pub Misses-Fresh : (i : ℕ) (zs : List ℕ) → Fresh i zs → Misses (some i) zs
Misses-Fresh i [] h = tt
Misses-Fresh i (z ∷ zs) h = ((λ e. h.0 cc), Misses-Fresh i zs (h.1))

-- A node that is missed has another page.
pub other_page :
    (arena : List LruNode) (m : OrdMap ℕ) (page z : ℕ)
    → OrdMap.get (page_of arena z) m ≡ some z
    → OrdMap.get page m ≢ some z
    → page_of arena z ≢ page
other_page arena m page z h k e = k (ap (λ p. OrdMap.get p m) (sym e) ∙ h)

pub other_test :
    (arena : List LruNode) (m : OrdMap ℕ) (page z : ℕ)
    → OrdMap.get (page_of arena z) m ≡ some z
    → OrdMap.get page m ≢ some z
    → (page_of arena z == page) ≡ false
other_test arena m page z h k = elim (Bool-cases (page_of arena z == page)) [
  | inl t ↦ absurd (other_page arena m page z h k ((==_iff (page_of arena z) page).0 t))
  | inr f ↦ f
]

-- A page that none of the nodes has.
pub without-Misses :
    (arena : List LruNode) (m : OrdMap ℕ) (page : ℕ) (zs : List ℕ)
    → Placed arena m zs
    → Misses (OrdMap.get page m) zs
    → without page (map (page_of arena) zs) ≡ map (page_of arena) zs
without-Misses arena m page [] h k = refl
without-Misses arena m page (z ∷ zs) h k =
    rw (other_test arena m page z (h.0) (k.0))
      (ap (λ ps. page_of arena z ∷ ps) (without-Misses arena m page zs (h.1) (k.1)))

pub retain-append :
    (page : ℕ) (ps qs : List ℕ) → without page (ps ++ qs) ≡ without page ps ++ without page qs
retain-append page [] qs = refl
retain-append page (p ∷ ps) qs = ground (arith, retain-append page ps qs)

pub map-append : (f : ℕ → ℕ) (xs ys : List ℕ) → map f (xs ++ ys) ≡ map f xs ++ map f ys
map-append f [] ys = refl
map-append f (x ∷ xs) ys = ap (λ r. f x ∷ r) (map-append f xs ys)

pub map-pages :
    (a b : List LruNode) (is : List ℕ)
    → ((j : ℕ) → page_of b j ≡ page_of a j)
    → map (page_of b) is ≡ map (page_of a) is
map-pages a b [] h = refl
map-pages a b (i ∷ is) h = λ k. h i k ∷ map-pages a b is h k

pub Placed-append :
    (arena : List LruNode) (m : OrdMap ℕ) (xs ys : List ℕ)
    → Placed arena m (xs ++ ys)
    → Placed arena m xs × Placed arena m ys
Placed-append arena m [] ys h = (tt, h)
Placed-append arena m (x ∷ xs) ys h =
    let (a, b) = Placed-append arena m xs ys (h.1) in ((h.0, a), b)

pub append-Placed :
    (arena : List LruNode) (m : OrdMap ℕ) (xs ys : List ℕ)
    → Placed arena m xs
    → Placed arena m ys
    → Placed arena m (xs ++ ys)
append-Placed arena m [] ys h k = k
append-Placed arena m (x ∷ xs) ys h k = (h.0, append-Placed arena m xs ys (h.1) k)

pub Placed-pages :
    (a b : List LruNode) (m : OrdMap ℕ) (is : List ℕ)
    → ((j : ℕ) → page_of b j ≡ page_of a j)
    → Placed a m is
    → Placed b m is
Placed-pages a b m [] e h = tt
Placed-pages a b m (i ∷ is) e h =
    (ap (λ p. OrdMap.get p m) (e i) ∙ h.0, Placed-pages a b m is e (h.1))

pub Placed-remove :
    (arena : List LruNode) (m : OrdMap ℕ) (page : ℕ) (zs : List ℕ)
    → Placed arena m zs
    → Misses (OrdMap.get page m) zs
    → Placed arena (OrdMap.remove page m) zs
Placed-remove arena m page [] h k = tt
Placed-remove arena m page (z ∷ zs) h k = (
  get-remove page (page_of arena z) m
      ∙ other (page_of arena z) page none (OrdMap.get (page_of arena z) m)
          (other_page arena m page z (h.0) (k.0))
      ∙ h.0,
  Placed-remove arena m page zs (h.1) (k.1),
)

pub Inside-length :
    (a b : List LruNode) (is : List ℕ) → length b ≡ length a → Inside a is → Inside b is
Inside-length a b [] e h = tt
Inside-length a b (i ∷ is) e h = (subst (λ n. i < n) (sym e) (h.0), Inside-length a b is e (h.1))

pub Inside-move :
    (arena : List LruNode) (xs : List ℕ) (i : ℕ) (ys zs : List ℕ)
    → Inside arena ((xs ++ (i ∷ ys)) ++ zs)
    → Inside arena ((xs ++ ys) ++ (i ∷ zs))
Inside-move arena [] i ys zs h =
    let (a, b) = Inside-append arena ys zs (h.1) in append-Inside arena ys (i ∷ zs) a (h.0, b)
Inside-move arena (x ∷ xs) i ys zs h = (h.0, Inside-move arena xs i ys zs (h.1))

pub next_in :
    (arena : List LruNode) (i : ℕ) (ys : List ℕ)
    → Seg (next_of arena) (prev_of arena) i ys tail
    → tail < length arena
    → Inside arena ys
    → next_of arena i < length arena
next_in arena i [] s t h = subst (λ x. x < length arena) (sym (s.0)) t
next_in arena i (y ∷ ys) s t h = subst (λ x. x < length arena) (sym (s.0)) (h.0)
