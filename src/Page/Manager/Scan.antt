-- ===== src/Page/Manager/Scan.antt =====
-- The scan of the free space map finds the first free page at or behind its start, and none only if
-- every page there is in use.
use cypher_lite.Prelude.{
  ℕ, zero, suc, ◌+◌, ◌-◌, ◌*◌, ◌/◌, ◌%◌, ◌≤◌, ◌<◌, ◌≡◌, refl, sym, ap, ◌∙◌, Bool, true, false, none,
  some, [], ◌∷◌, arith, length, drop, ◌==◌, ==_iff, Bool-cases, Option-cases, inl, inr, ◌⊎◌,
}
use native.Mathlib.Decide.{dec_lt}
use cypher_lite.File.{Bytes}
use cypher_lite.Page.Manager.{bit_set, first_clear, scan_bytes}
use cypher_lite.Page.Manager.Bits.{bit_set-full}

-- Bit `j` of byte `i`, set behind the end.
unfoldable pub bit_at : Bytes → ℕ → ℕ → Bool
bit_at [] i j = true
bit_at (b ∷ bs) zero j = bit_set b j
bit_at (b ∷ bs) (suc i) j = bit_at bs i j

-- Whether page `p` is in use; what the map does not cover is.
unfoldable pub used : Bytes → ℕ → Bool
unfolding bit_at
used fsm p = bit_at fsm (p / 8) (p % 8)

first_clear-some :
    (n k b r : ℕ) → first_clear n k b ≡ some r → (k ≤ r) × (r < k + n) × (bit_set b r ≡ false)
unfolding first_clear
first_clear-some zero k b r h = cc
first_clear-some (suc n) k b r h = ground (arith, first_clear-some n (k + 1) b r)

first_clear-none : (n k b j : ℕ) → first_clear n k b ≡ none → k ≤ j → j < k + n → bit_set b j ≡ true
unfolding first_clear
first_clear-none zero k b j h lo hi = absurd (omega arith)
first_clear-none (suc n) k b j h lo hi = ground (arith, first_clear-none n (k + 1) b j)

-- The pages of one byte, and those behind it.
used-head : (b : ℕ) (bs : Bytes) (q : ℕ) → q < 8 → used (b ∷ bs) q ≡ bit_set b q
unfolding used
used-head b bs q h =
    let e : q / 8 ≡ 0 = omega arith in
    let r : q % 8 ≡ q = omega arith in ap (λ i. bit_at (b ∷ bs) i (q % 8)) e ∙ ap (bit_set b) r

used-tail : (b : ℕ) (bs : Bytes) (q : ℕ) → used (b ∷ bs) (q + 8) ≡ used bs q
unfolding used
used-tail b bs q =
    let e : (q + 8) / 8 ≡ suc (q / 8) = omega arith in
    let r : (q + 8) % 8 ≡ q % 8 = omega arith in
    ap (λ i. bit_at (b ∷ bs) i ((q + 8) % 8)) e ∙ ap (bit_at bs (q / 8)) r

-- One byte of the scan.
scan-skip :
    (b : ℕ) (bs : Bytes) (i : ℕ)
    → ((b == 0xFF) ≡ true) ⊎ (first_clear 8 0 b ≡ none)
    → scan_bytes (b ∷ bs) i ≡ scan_bytes bs (i + 1)
unfolding scan_bytes
scan-skip b bs i (inl full) = rw full
scan-skip b bs i (inr none_clear) = ground arith

scan-stop :
    (b : ℕ) (bs : Bytes) (i k : ℕ)
    → (b == 0xFF) ≡ false
    → first_clear 8 0 b ≡ some k
    → scan_bytes (b ∷ bs) i ≡ some (i * 8 + k)
unfolding scan_bytes
scan-stop b bs i k other found = rw (other, found)

scan-cases :
    (b : ℕ)
    → (((b == 0xFF) ≡ true) ⊎ (first_clear 8 0 b ≡ none))
      ⊎ (((b == 0xFF) ≡ false) × ((k : ℕ) × (first_clear 8 0 b ≡ some k)))
scan-cases b = elim (Bool-cases (b == 0xFF)) [
  | inl full ↦ inl (inl full)
  | inr other ↦ elim (Option-cases (first_clear 8 0 b)) [
    | inl none_clear ↦ inl (inr none_clear)
    | inr (k, found) ↦ inr (other, (k, found))
  ]
]

pub scan_bytes-some :
    (bs : Bytes) (i p : ℕ)
    → scan_bytes bs i ≡ some p
    → (q : ℕ) × (p ≡ i * 8 + q) × (q < length bs * 8) × (used bs q ≡ false)
scan_bytes-some [] i p h = unfold scan_bytes in cc
scan_bytes-some (b ∷ bs) i p h = elim (scan-cases b) [
  | inl skipped ↦
      let (q, at, lt, free) = scan_bytes-some bs (i + 1) p (sym (scan-skip b bs i skipped) ∙ h) in
      (q + 8, omega arith, omega arith, used-tail b bs q ∙ free)
  | inr (other, (k, found)) ↦
      let (lo, hi, clear) = first_clear-some 8 0 b k found in
      let at : p ≡ i * 8 + k = ground (arith, scan-stop b bs i k) in
      (k, at, omega arith, used-head b bs k (omega arith) ∙ clear)
]

-- The pages of one byte that the scan passes over are in use.
used-skipped :
    (b : ℕ) (bs : Bytes) (q : ℕ)
    → ((b == 0xFF) ≡ true) ⊎ (first_clear 8 0 b ≡ none)
    → q < 8
    → used (b ∷ bs) q ≡ true
used-skipped b bs q (inl full) lt =
    used-head b bs q lt ∙ ap (λ c. bit_set c q) ((==_iff b 255).0 full) ∙ bit_set-full q lt
used-skipped b bs q (inr none_clear) lt =
    used-head b bs q lt ∙ first_clear-none 8 0 b q none_clear (omega arith) (omega arith)

pub scan_bytes-none :
    (bs : Bytes) (i q : ℕ) → scan_bytes bs i ≡ none → q < length bs * 8 → used bs q ≡ true
scan_bytes-none [] i q h lt = absurd (omega arith)
scan_bytes-none (b ∷ bs) i q h lt = elim (scan-cases b) [
  | inr (other, (k, found)) ↦ let stop = scan-stop b bs i k other found in cc
  | inl skipped ↦
      let rest : scan_bytes bs (i + 1) ≡ none = sym (scan-skip b bs i skipped) ∙ h in
      elim (dec_lt q 8) [
        | yes low ↦ used-skipped b bs q skipped low
        | no high ↦
            let e : q ≡ q - 8 + 8 = omega arith in
            ap (used (b ∷ bs)) e
            ∙ (used-tail b bs (q - 8) ∙ scan_bytes-none bs (i + 1) (q - 8) rest (omega arith))
      ]
]

-- Behind `s` bytes of the map.
pub used-drop : (s : ℕ) (fsm : Bytes) (q : ℕ) → used (drop s fsm) q ≡ used fsm (s * 8 + q)
unfolding used
used-drop zero fsm q = ap (used fsm) (omega arith)
used-drop (suc s) [] q = refl
used-drop (suc s) (b ∷ bs) q =
    used-drop s bs q ∙ (sym (used-tail b bs (s * 8 + q)) ∙ ap (used (b ∷ bs)) (omega arith))
