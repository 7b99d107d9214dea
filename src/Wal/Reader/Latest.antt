-- ===== src/Wal/Reader/Latest.antt =====
-- The reader holds, for each page, the visible frame with the largest number.
use cypher_lite.Prelude.{
  refl, ap, subst, ℕ, ◌≤◌, ◌≡◌, ◌⊎◌, inl, Bool, true, false, ◌||◌, ◌&&◌, Option, none, some, List,
  [], ◌∷◌, arith, ltb, leb, ◌==◌, if◌then◌else◌,
}
use cypher_lite.OrdMap
use cypher_lite.OrdMap.{OrdMap}
use cypher_lite.OrdMap.Laws.{get-insert, get-nil}
use cypher_lite.Wal.Format.{WalFrame}
use cypher_lite.Wal.Reader.{WalReader, with_snapshot, index_frame}

unfoldable pub index_frames : WalReader → List WalFrame → WalReader
index_frames r [] = r
index_frames r (f ∷ fs) = index_frames (index_frame r f) fs

-- A frame of page `p` that the snapshot shows.
abbrev pub visible : ℕ → ℕ → WalFrame → Bool
visible snapshot p f = (f.page_number == p) && (snapshot == 0 || leb f.frame_number snapshot)

-- The later of two frames; the first wins a tie.
unfoldable pub later : Option WalFrame → WalFrame → Option WalFrame
later none f = some f
later (some e) f = if ltb e.frame_number f.frame_number then some f else some e

get-index_frame :
    (r : WalReader) (f : WalFrame) (p : ℕ)
    → OrdMap.get p (index_frame r f).index ≡ (
        if visible r.snapshot_frame p f
        then later (OrdMap.get p r.index) f
        else OrdMap.get p r.index)
unfolding index_frame later
get-index_frame r f p = ground (arith, get-insert f.page_number p f r.index)

pub snapshot-index_frame :
    (r : WalReader) (f : WalFrame) → (index_frame r f).snapshot_frame ≡ r.snapshot_frame
unfolding index_frame
snapshot-index_frame r f = ground arith

-- `f` is one of the frames.
abbrev pub Among : WalFrame → List WalFrame → Type 0
Among f [] = ⊥
Among f (g ∷ fs) = (g ≡ f) ⊎ Among f fs

-- No visible frame among `fs` has a larger number than `n`.
abbrev pub Bounded : ℕ → ℕ → ℕ → List WalFrame → Type 0
Bounded snapshot p n [] = Unit
Bounded snapshot p n (g ∷ fs) =
    (visible snapshot p g ≡ true → g.frame_number ≤ n) × Bounded snapshot p n fs

abbrev pub Hidden : ℕ → ℕ → List WalFrame → Type 0
Hidden snapshot p [] = Unit
Hidden snapshot p (g ∷ fs) = (visible snapshot p g ≡ false) × Hidden snapshot p fs

-- `o` is a visible frame of page `p` with the largest number, or there is none.
abbrev pub IsLatest : ℕ → ℕ → List WalFrame → Option WalFrame → Type 0
IsLatest snapshot p fs none = Hidden snapshot p fs
IsLatest snapshot p fs (some f) =
    Among f fs × (visible snapshot p f ≡ true) × Bounded snapshot p f.frame_number fs

-- The same beside a frame that was held before.
abbrev From : Option WalFrame → ℕ → ℕ → List WalFrame → Option WalFrame → Type 0
From best snapshot p fs none = (best ≡ none) × Hidden snapshot p fs
From best snapshot p fs (some f) =
    ((best ≡ some f) ⊎ (Among f fs × (visible snapshot p f ≡ true)))
    × ((b : WalFrame) → best ≡ some b → b.frame_number ≤ f.frame_number)
    × Bounded snapshot p f.frame_number fs

-- The number of the held frame.
abbrev number : Option WalFrame → ℕ
number none = 0
number (some f) = f.frame_number

From-step :
    (best : Option WalFrame) (s p : ℕ) (f : WalFrame) (fs : List WalFrame) (o : Option WalFrame)
    → From (if visible s p f then later best f else best) s p fs o
    → From best s p (f ∷ fs) o
unfolding later
From-step none s p f fs none h = ground arith
From-step (some e) s p f fs none h = ground arith
From-step none s p f fs (some g) h =
    (ground arith, λ b q. ground (arith, h.1 f), ground (arith, h.1 f))
From-step (some e) s p f fs (some g) h =
    (ground arith, λ b q. ground (arith, h.1 f, h.1 e), ground (arith, h.1 f, h.1 e))

index_frames-From :
    (r : WalReader) (p : ℕ) (fs : List WalFrame)
    → From (OrdMap.get p r.index) r.snapshot_frame p fs (OrdMap.get p (index_frames r fs).index)
unfolding index_frames
index_frames-From r p [] = held (OrdMap.get p r.index)
  where
    held : (o : Option WalFrame) → From o r.snapshot_frame p [] o
    held none = (refl, tt)
    held (some f) = (inl refl, λ b q. omega (arith, ap number q), tt)
index_frames-From r p (f ∷ fs) = From-step (OrdMap.get p r.index) r.snapshot_frame p f fs _ (
    subst
      (λ best.
        From best r.snapshot_frame p fs (OrdMap.get p (index_frames (index_frame r f) fs).index))
      (get-index_frame r f p)
      (subst
        (λ s.
          From (OrdMap.get p (index_frame r f).index) s p fs
            (OrdMap.get p (index_frames (index_frame r f) fs).index))
        (snapshot-index_frame r f) (index_frames-From (index_frame r f) p fs)))

-- Indexing any frames, in any order, leaves for each page the visible frame with the largest number,
-- and no frame exactly if none is visible.
pub index_frames-IsLatest :
    (snapshot p : ℕ) (fs : List WalFrame)
    → IsLatest snapshot p fs (OrdMap.get p (index_frames (with_snapshot snapshot) fs).index)
index_frames-IsLatest snapshot p fs = forget _ (index_frames-From (with_snapshot snapshot) p fs)
  where
    forget :
        (o : Option WalFrame)
        → From (OrdMap.get p (with_snapshot snapshot).index) snapshot p fs o
        → IsLatest snapshot p fs o
    forget none h = h.1
    forget (some f) h = ground (arith, get-nil {V = WalFrame} p)
