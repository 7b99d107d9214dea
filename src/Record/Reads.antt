-- ===== src/Record/Reads.antt =====
-- What a reader makes of given bytes, wherever they stand.
use cypher_lite.Prelude.{
  ℕ, ◌+◌, ◌≤◌, ◌≡◌, refl, sym, ap, subst, ◌∙◌, Option, some, [], ◌∷◌, ◌++◌, append_assoc,
  append-nil, arith, ltb, length, get_elem?, take, drop, length-append, take-append, drop-append,
  false,
}
use cypher_lite.File.{Bytes}
use cypher_lite.Endian.{to_le, from_le, length-to_le}
use cypher_lite.Record.Reader.{Reader, pure, ◌>>=◌, ensure, read_bytes, read_uint, read_byte, lift}

-- In any buffer, at the bytes `bs`, the reader gives `x` and goes on behind them.
pub record Reads {A : Type 0} (r : Reader A) (bs : Bytes) (x : A) : Type 0 where
  pub at :
      (pre post : Bytes) → r (pre ++ (bs ++ post)) (length pre) ≡ some (x, length pre + length bs)

slice-at :
    (n : ℕ) (pre bs post : Bytes)
    → length bs ≡ n
    → take n (drop (length pre) (pre ++ (bs ++ post))) ≡ bs
slice-at n pre bs post h =
    ap (take n) (drop-append (length pre) pre (bs ++ post) refl) ∙ take-append n bs post h

enough :
    (n : ℕ) (pre bs post : Bytes)
    → length bs ≡ n
    → ltb (length (pre ++ (bs ++ post))) (length pre + n) ≡ false
enough n pre bs post h = ground (arith, length-append pre (bs ++ post), length-append bs post)

there :
    (n : ℕ) (pre cs post : Bytes)
    → n ≤ length cs
    → ltb (length (pre ++ (cs ++ post))) (length pre + n) ≡ false
there n pre cs post h = ground (arith, length-append pre (cs ++ post), length-append cs post)

pub Reads-read_bytes : (n : ℕ) (bs : Bytes) → length bs ≡ n → Reads (read_bytes n) bs bs
unfolding read_bytes
Reads-read_bytes n bs h = record {
  at = λ pre post.
      rw (enough n pre bs post h, slice-at n pre bs post h)
        (ap (λ k. some (bs, length pre + k)) (sym h));
}

pub Reads-read_uint : (w n : ℕ) → from_le (to_le w n) ≡ n → Reads (read_uint w) (to_le w n) n
unfolding read_uint
Reads-read_uint w n back =
    let size = length-to_le w n in
    record {
      at = λ pre post.
          rw (enough w pre (to_le w n) post size, slice-at w pre (to_le w n) post size, back)
            (ap (λ k. some (n, length pre + k)) (sym size));
    }

get_elem?-append :
    (pre : Bytes) (b : ℕ) (post : Bytes) → get_elem? (pre ++ (b ∷ post)) (length pre) ≡ some b
get_elem?-append [] b post = refl
get_elem?-append (x ∷ pre) b post = get_elem?-append pre b post

pub Reads-read_byte : (b : ℕ) → Reads read_byte (b ∷ []) b
unfolding read_byte
Reads-read_byte b = record { at = λ pre post. rw (read_byte, get_elem?-append pre b post) refl }

pub Reads-pure : {A : Type 0} (x : A) → Reads (pure x) [] x
unfolding pure
Reads-pure x = record { at = λ pre post. ap (λ k. some (x, k)) (omega arith) }

-- Two readers one behind the other.
pub Reads-bind :
    {A B : Type 0} {r : Reader A} {bs : Bytes} {x : A} (f : A → Reader B) {cs : Bytes} {y : B}
    → Reads r bs x
    → Reads (f x) cs y
    → Reads (r >>= f) (bs ++ cs) y
Reads-bind {r} {bs} {x} f {cs} {y} first second =
    unfold ◌>>=◌ in
    record {
      at = λ pre post.
          rw (append_assoc bs cs post, first.at pre (cs ++ post), length-append bs cs)
            (ap (λ k. f x (pre ++ (bs ++ (cs ++ post))) k) (sym (length-append pre bs))
              ∙ ap (λ b. f x b (length (pre ++ bs))) (sym (append_assoc pre bs (cs ++ post)))
              ∙ second.at (pre ++ bs) post
              ∙ ap (λ k. some (y, k)) (omega (arith, length-append pre bs)));
    }

-- What `ensure` asks for is there.
pub Reads-ensure :
    {B : Type 0} {n : ℕ} (f : Unit → Reader B) {cs : Bytes} {y : B}
    → n ≤ length cs
    → Reads (f tt) cs y
    → Reads (ensure n >>= f) cs y
Reads-ensure {n} f {cs} {y} h second =
    unfold ◌>>=◌ ensure in
    record { at = λ pre post. rw (there n pre cs post h) (second.at pre post) }

-- `lift` reads nothing.
pub Reads-lift :
    {A B : Type 0} {o : Option A} {x : A} (f : A → Reader B) {cs : Bytes} {y : B}
    → o ≡ some x
    → Reads (f x) cs y
    → Reads (lift o >>= f) cs y
Reads-lift {o} {x} f {cs} {y} h second =
    subst (λ o. Reads (lift o >>= f) cs y) (sym h) (unfold ◌>>=◌ lift in record { at = second.at })

-- The last step, a reader followed by `pure`.
pub Reads-map :
    {A B : Type 0} {r : Reader A} {bs : Bytes} {x : A} (f : A → B)
    → Reads r bs x
    → Reads (r >>= λ a. pure (f a)) bs (f x)
Reads-map {r} {bs} {x} f first =
    unfold ◌>>=◌ pure in record { at = λ pre post. rw (first.at pre post) refl }

-- A last step that reads nothing.
pub Reads-last :
    {A B : Type 0} {r : Reader A} {bs : Bytes} {x : A} (f : A → Reader B) {y : B}
    → Reads r bs x
    → Reads (f x) [] y
    → Reads (r >>= f) bs y
Reads-last {r} {bs} f {y} first second =
    subst (λ cs. Reads (r >>= f) cs y) (append-nil bs) (Reads-bind f first second)

-- At the start of a buffer.
pub Reads-start :
    {A : Type 0} {r : Reader A} {bs : Bytes} {x : A} (post : Bytes)
    → Reads r bs x
    → r (bs ++ post) 0 ≡ some (x, length bs)
Reads-start {bs} {x} post h = h.at [] post ∙ ap (λ k. some (x, k)) (omega arith)
