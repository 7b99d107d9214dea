-- ===== src/File/Laws.antt =====
-- What a read sees after a write.
use cypher_lite.Prelude.{
  refl, [], append_assoc, append-nil, take-append_ge, replicate-zero, ℕ, ◌+◌, ◌-◌, ◌≤◌, ◌≡◌, sym,
  ◌∙◌, ap, ◌⊎◌, inl, inr, ◌++◌, arith, length, take, drop, replicate, length-append, length-take,
  length-drop, length-replicate, drop-append, drop-append_ge, drop-drop, slice-append, slice-take,
  take-append,
}
use cypher_lite.Core.Result.{ok}
use cypher_lite.File.{Bytes, extend, write_at, read_at}

pub length-extend : (n : ℕ) (f : Bytes) → length (extend n f) ≡ n
unfolding extend
length-extend n f = omega (
  arith,
  length-append (take n f) (replicate (n - length f) 0),
  length-take n f,
  length-replicate {A = ℕ} (n - length f) 0,
)

pub length-write_at :
    (o : ℕ) (bs f : Bytes) → length (write_at o bs f) ≡ o + length bs + (length f - (o + length bs))
unfolding write_at
length-write_at o bs f = omega (
  arith,
  length-append (extend o f) (bs ++ drop (o + length bs) f),
  length-append bs (drop (o + length bs) f),
  length-extend o f,
  length-drop (o + length bs) f,
)

pub read_at-inside :
    (o n : ℕ) (f : Bytes) → o + n ≤ length f → read_at o n f ≡ ok (take n (drop o f))
unfolding read_at
read_at-inside o n f h = ground arith

-- The bytes that were written are read back.
pub read_at-write_at :
    (o n : ℕ) (bs f : Bytes) → length bs ≡ n → read_at o n (write_at o bs f) ≡ ok bs
read_at-write_at o n bs f h =
    read_at-inside o n (write_at o bs f) (omega (arith, length-write_at o bs f))
    ∙ ap ok (
        unfold write_at in
        ap (take n) (drop-append o (extend o f) _ (length-extend o f)) ∙ take-append n bs _ h)

slice-extend :
    (o n p : ℕ) (f : Bytes)
    → o + n ≤ p
    → o + n ≤ length f
    → take n (drop o (extend p f)) ≡ take n (drop o f)
unfolding extend
slice-extend o n p f h k =
    slice-append n o (take p f) _ (omega (arith, length-take p f)) ∙ slice-take n o p f h

-- A write elsewhere is not seen.
pub slice-write_at :
    (o n p : ℕ) (bs f : Bytes)
    → o + n ≤ length f
    → (o + n ≤ p) ⊎ (p + length bs ≤ o)
    → take n (drop o (write_at p bs f)) ≡ take n (drop o f)
unfolding write_at
slice-write_at o n p bs f inside (inl before) =
    slice-append n o (extend p f) _ (omega (arith, length-extend p f))
    ∙ slice-extend o n p f before inside
slice-write_at o n p bs f inside (inr behind) = ap (take n) (
    drop-append_ge o (extend p f) _ (omega (arith, length-extend p f))
    ∙ (drop-append_ge (o - length (extend p f)) bs _ (omega (arith, length-extend p f))
        ∙ (drop-drop _ (p + length bs) f ∙ ap (λ k. drop k f) (omega (arith, length-extend p f)))))

pub read_at-write_ne :
    (o n p : ℕ) (bs f : Bytes)
    → o + n ≤ length f
    → (o + n ≤ p) ⊎ (p + length bs ≤ o)
    → read_at o n (write_at p bs f) ≡ read_at o n f
read_at-write_ne o n p bs f inside apart =
    read_at-inside o n (write_at p bs f) (omega (arith, length-write_at p bs f))
    ∙ (ap ok (slice-write_at o n p bs f inside apart) ∙ sym (read_at-inside o n f inside))

-- A write at or behind the end of `a` leaves `a` in place.
pub write_at-append_ge :
    (o : ℕ) (bs a t : Bytes) → length a ≤ o → (rest : Bytes) × (write_at o bs (a ++ t) ≡ a ++ rest)
unfolding write_at extend
write_at-append_ge o bs a t h =
    let x = replicate (o - length (a ++ t)) 0 in
    let y = bs ++ drop (o + length bs) (a ++ t) in
    (
      take (o - length a) t ++ (x ++ y),
      ap (λ r. (r ++ x) ++ y) (take-append_ge o a t h)
          ∙ (append_assoc (a ++ take (o - length a) t) x y
              ∙ append_assoc a (take (o - length a) t) (x ++ y)),
    )

-- A write at the end of `a` stands behind `a`.
pub write_at-append :
    (o : ℕ) (bs a t : Bytes)
    → length a ≡ o
    → write_at o bs (a ++ t) ≡ a ++ (bs ++ drop (length bs) t)
unfolding write_at extend
write_at-append o bs a t h =
    let x : Bytes = replicate (o - length (a ++ t)) 0 in
    let no_gap : x ≡ [] =
      ap (λ k. replicate k 0)
        (let e : o - length (a ++ t) ≡ 0 = omega (arith, length-append a t) in e)
      ∙ replicate-zero 0 in
    let back : drop (o + length bs) (a ++ t) ≡ drop (length bs) t =
      drop-append_ge (o + length bs) a t (omega arith)
      ∙ ap (λ k. drop k t) (let e : o + length bs - length a ≡ length bs = omega arith in e) in
    ap (λ r. (take o (a ++ t) ++ r) ++ (bs ++ drop (o + length bs) (a ++ t))) no_gap
    ∙ (ap (λ r. r ++ (bs ++ drop (o + length bs) (a ++ t)))
          (append-nil (take o (a ++ t)) ∙ take-append o a t h)
        ∙ ap (λ r. a ++ (bs ++ r)) back)

pub write_at-nil : (f : Bytes) → write_at 0 [] f ≡ f
write_at-nil f = write_at-append 0 [] [] f refl

-- A write at the start replaces as many bytes as it has.
pub write_at-front : (bs a t : Bytes) → length a ≡ length bs → write_at 0 bs (a ++ t) ≡ bs ++ t
write_at-front bs a t h =
    write_at-append 0 bs [] (a ++ t) refl ∙ ap (λ r. bs ++ r) (drop-append (length bs) a t h)

pub extend-append : (n : ℕ) (a t : Bytes) → length a ≡ n → extend n (a ++ t) ≡ a
unfolding extend
extend-append n a t h =
    let none_missing : n - length (a ++ t) ≡ 0 = omega (arith, length-append a t) in
    let no_gap : replicate (n - length (a ++ t)) 0 ≡ [] =
      ap (λ k. replicate k 0) none_missing ∙ replicate-zero 0 in
    ap (λ r. take n (a ++ t) ++ r) no_gap ∙ (append-nil (take n (a ++ t)) ∙ take-append n a t h)
