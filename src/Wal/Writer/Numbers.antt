-- ===== src/Wal/Writer/Numbers.antt =====
-- The numbers of the frames in the log and the buffer.
use cypher_lite.Prelude.{
  ℕ, ◌+◌, ◌≡◌, sym, ap, ◌∙◌, subst, List, [], ◌∷◌, ◌++◌, arith, length, append_assoc, append-nil,
  length-append,
}
use cypher_lite.Wal.Format.{WalFrame, new_frame}
use cypher_lite.Wal.Writer.{WalWriter, create, next_frame_number, write_frame, discard, reset}
use cypher_lite.Wal.Writer.Commit.{commit-HoldsFrames}
use cypher_lite.Wal.Writer.History.{
  Reach, created, wrote, committed, discarded, emptied, Reach-IsGood,
}

-- Every reset found an empty buffer.
abbrev pub ResetsEmpty : {w : WalWriter} {fs : List WalFrame} → Reach w fs → Type 0
ResetsEmpty (created salt mode h) = Unit
ResetsEmpty (wrote p d bs r hp hd size room) = ResetsEmpty r
ResetsEmpty (committed r) = ResetsEmpty r
ResetsEmpty (discarded r) = ResetsEmpty r
ResetsEmpty (emptied {w} r) = (w.uncommitted_frames ≡ []) × ResetsEmpty r

-- The frames have the numbers from `n + 1` on, without a gap.
abbrev pub AreNumbered : ℕ → List WalFrame → Type 0
AreNumbered n [] = Unit
AreNumbered n (f ∷ fs) = (f.frame_number ≡ n + 1) × AreNumbered (n + 1) fs

AreNumbered-append :
    (n : ℕ) (fs : List WalFrame) (f : WalFrame)
    → AreNumbered n fs
    → f.frame_number ≡ n + length fs + 1
    → AreNumbered n (fs ++ (f ∷ []))
AreNumbered-append n [] f p e = (omega arith, tt)
AreNumbered-append n (g ∷ fs) f p e = (p.0, AreNumbered-append (n + 1) fs f p.1 (omega arith))

AreNumbered-prefix : (n : ℕ) (fs gs : List WalFrame) → AreNumbered n (fs ++ gs) → AreNumbered n fs
AreNumbered-prefix n [] gs p = tt
AreNumbered-prefix n (f ∷ fs) gs p = (p.0, AreNumbered-prefix (n + 1) fs gs p.1)

-- If no reset found frames in the buffer, the committed frames and then those of the buffer are
-- numbered from 1 on, without a gap, so that a frame is read at the place of its number.
pub Reach-AreNumbered :
    {w : WalWriter} {fs : List WalFrame} (r : Reach w fs)
    → ResetsEmpty r
    → AreNumbered 0 (fs ++ w.uncommitted_frames)
unfolding create write_frame discard reset next_frame_number new_frame
Reach-AreNumbered (created salt mode h) clean = tt
Reach-AreNumbered (wrote {w} {fs} p d bs r hp hd size room) clean =
    let counted : w.header.frame_count ≡ length fs = (Reach-IsGood r).log.committed.counted in
    let frame = new_frame (next_frame_number w) p d w.header.salt bs in
    subst (AreNumbered 0) (append_assoc fs w.uncommitted_frames (frame ∷ [])) (
      AreNumbered-append 0 (fs ++ w.uncommitted_frames) frame (Reach-AreNumbered r clean)
        (omega (arith, length-append fs w.uncommitted_frames, room, counted)))
Reach-AreNumbered (committed {w} {fs} r) clean =
    let cleared = (commit-HoldsFrames w fs (Reach-IsGood r).log).1 in
    subst (AreNumbered 0)
      (sym (
        ap (λ us. (fs ++ w.uncommitted_frames) ++ us) cleared
        ∙ append-nil (fs ++ w.uncommitted_frames)))
      (Reach-AreNumbered r clean)
Reach-AreNumbered (discarded {w} {fs} r) clean =
    subst (AreNumbered 0) (sym (append-nil fs))
      (AreNumbered-prefix 0 fs w.uncommitted_frames (Reach-AreNumbered r clean))
Reach-AreNumbered (emptied {w} {fs} r) clean = subst (AreNumbered 0) (sym clean.0) tt
