-- ===== src/Page/Manager/Marks.antt =====
-- Writing one byte of the free space map changes the use of one page.
use Prim.Native.Nat.{bit_and, bit_or}
use cypher_lite.Prelude.{
  ℕ, zero, suc, ◌-◌, ◌*◌, ◌/◌, ◌%◌, ◌^◌, ◌<◌, ◌≡◌, refl, ap, ◌∙◌, Bool, true, false, some, [], ◌∷◌,
  arith, length, length-set, get_elem?, set, ◌==◌, if◌then◌else◌,
}
use cypher_lite.Core.Result.{ok}
use cypher_lite.File.{Bytes}
use cypher_lite.Endian.{AreBytes}
use cypher_lite.Page.Manager.{bit_set, update_byte}
use cypher_lite.Page.Manager.Bits.{bit_set-bit_or, bit_set-bit_and, bit_range}
use cypher_lite.Page.Manager.Scan.{bit_at, used}

get_elem?-of_lt : (xs : Bytes) (i : ℕ) → i < length xs → (b : ℕ) × (get_elem? xs i ≡ some b)
get_elem?-of_lt [] i h = absurd (omega arith)
get_elem?-of_lt (x ∷ xs) zero h = (x, refl)
get_elem?-of_lt (x ∷ xs) (suc i) h = get_elem?-of_lt xs i (omega arith)

AreBytes-get_elem? : (xs : Bytes) (i b : ℕ) → AreBytes xs → get_elem? xs i ≡ some b → b < 256
AreBytes-get_elem? [] i b v h = cc
AreBytes-get_elem? (x ∷ xs) zero b v h = ground arith
AreBytes-get_elem? (x ∷ xs) (suc i) b v h = AreBytes-get_elem? xs i b v.1 h

AreBytes-set : (xs : Bytes) (i b : ℕ) → AreBytes xs → b < 256 → AreBytes (set xs i b)
AreBytes-set [] i b v h = tt
AreBytes-set (x ∷ xs) zero b v h = (h, v.1)
AreBytes-set (x ∷ xs) (suc i) b v h = (v.0, AreBytes-set xs i b v.1 h)

bit_at-get_elem? : (xs : Bytes) (i j b : ℕ) → get_elem? xs i ≡ some b → bit_at xs i j ≡ bit_set b j
unfolding bit_at
bit_at-get_elem? [] i j b h = cc
bit_at-get_elem? (x ∷ xs) zero j b h = let same : x ≡ b = cc in ap (λ c. bit_set c j) same
bit_at-get_elem? (x ∷ xs) (suc i) j b h = bit_at-get_elem? xs i j b h

bit_at-set :
    (xs : Bytes) (i b v k j : ℕ)
    → get_elem? xs i ≡ some b
    → bit_at (set xs i v) k j ≡ (if i == k then bit_set v j else bit_at xs k j)
unfolding bit_at
bit_at-set [] i b v k j h = cc
bit_at-set (x ∷ xs) zero b v zero j h = refl
bit_at-set (x ∷ xs) zero b v (suc k) j h = ground arith
bit_at-set (x ∷ xs) (suc i) b v zero j h = ground arith
bit_at-set (x ∷ xs) (suc i) b v (suc k) j h = ground (arith, bit_at-set xs i b v k j)

-- The map `new` is `old` but for page `p`, which is in use if `mark`.
pub record Changes (mark : Bool) (p : ℕ) (old new : Bytes) : Type 0 where
  pub bytes : AreBytes new
  pub size : length new ≡ length old
  pub use_of : (q : ℕ) → used new q ≡ (if p == q then mark else used old q)

update_byte-set :
    (f : ℕ → ℕ) (fsm : Bytes) (i b : ℕ)
    → get_elem? fsm i ≡ some b
    → update_byte f fsm i ≡ ok (set fsm i (f b))
unfolding update_byte
update_byte-set f fsm i b h = rw (h, update_byte)

-- A function on bytes that gives bit `k` the value `mark` changes the use of one page.
module _ (mark : Bool) (f : ℕ → ℕ → ℕ) (range : (b k : ℕ) → b < 256 → k < 8 → f k b < 256)
    (bits : (b k j : ℕ)
      → b < 256
      → k < 8
      → j < 8
      → bit_set (f k b) j ≡ (if k == j then mark else bit_set b j)) where
  change :
      (fsm : Bytes) (p : ℕ)
      → AreBytes fsm
      → p < length fsm * 8
      → (new : Bytes) × (update_byte (f (p % 8)) fsm (p / 8) ≡ ok new) × Changes mark p fsm new
  unfolding used
  change fsm p v lt =
      let (b, at) = get_elem?-of_lt fsm (p / 8) (omega arith) in
      let small = AreBytes-get_elem? fsm (p / 8) b v at in
      (
        set fsm (p / 8) (f (p % 8) b),
        update_byte-set (f (p % 8)) fsm (p / 8) b at,
        record {
          bytes = AreBytes-set fsm (p / 8) _ v (range b (p % 8) small (omega arith));
          size = length-set fsm (p / 8) _;
          use_of = λ q. ground (
            arith,
            bit_at-set fsm (p / 8) b (f (p % 8) b) (q / 8) (q % 8),
            bit_at-get_elem? fsm (p / 8) (q % 8) b,
            bits b (p % 8) (q % 8),
          );
        },
      )

set_bits :
    (b k j : ℕ)
    → b < 256
    → k < 8
    → j < 8
    → bit_set (bit_or b (2 ^ k)) j ≡ (if k == j then true else bit_set b j)
set_bits b k j hb hk hj = bit_set-bit_or b k j hb hk hj ∙ (ground arith)

clear_bits :
    (b k j : ℕ)
    → b < 256
    → k < 8
    → j < 8
    → bit_set (bit_and b (255 - 2 ^ k)) j ≡ (if k == j then false else bit_set b j)
clear_bits b k j hb hk hj = bit_set-bit_and b k j hb hk hj ∙ (ground arith)

-- `|= 1 << bit` takes the page into use.
pub update_byte-mark :
    (fsm : Bytes) (p : ℕ)
    → AreBytes fsm
    → p < length fsm * 8
    → (new : Bytes) × (update_byte (λ b. bit_or b (2 ^ (p % 8))) fsm (p / 8) ≡ ok new)
      × Changes true p fsm new
update_byte-mark =
    change true (λ k b. bit_or b (2 ^ k)) (λ b k hb hk. (bit_range b k hb hk).0) set_bits

-- `&= !(1 << bit)` frees it.
pub update_byte-clear :
    (fsm : Bytes) (p : ℕ)
    → AreBytes fsm
    → p < length fsm * 8
    → (new : Bytes) × (update_byte (λ b. bit_and b (255 - 2 ^ (p % 8))) fsm (p / 8) ≡ ok new)
      × Changes false p fsm new
update_byte-clear =
    change false (λ k b. bit_and b (255 - 2 ^ k)) (λ b k hb hk. (bit_range b k hb hk).1) clear_bits
