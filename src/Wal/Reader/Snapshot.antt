-- ===== src/Wal/Reader/Snapshot.antt =====
-- What a transaction sees through a reader at its snapshot.
use cypher_lite.Prelude.{
  ℕ, ◌<◌, ◌≡◌, ◌≢◌, refl, sym, subst, ◌++◌, ◌∙◌, ap, List, [], ◌∷◌, arith, leb, ◌==◌, ◌||◌, false,
}
use cypher_lite.Wal.Format.{WalFrame}
use cypher_lite.Wal.Reader.{WalReader, with_snapshot, index_frame}
use cypher_lite.Wal.Reader.Latest.{index_frames, snapshot-index_frame}
use cypher_lite.Transaction.{TransactionManager, begin_read}

-- Every frame has a number above `n`.
abbrev pub After : ℕ → List WalFrame → Type 0
After n [] = Unit
After n (f ∷ fs) = (n < f.frame_number) × After n fs

index_frame-After :
    (r : WalReader) (f : WalFrame)
    → r.snapshot_frame ≢ 0
    → r.snapshot_frame < f.frame_number
    → index_frame r f ≡ r
unfolding index_frame
index_frame-After r f ne lt =
    let hidden : (r.snapshot_frame == 0 || leb f.frame_number r.snapshot_frame) ≡ false =
      ground arith in
    rw hidden refl

index_frames-After :
    (r : WalReader) (fs : List WalFrame)
    → r.snapshot_frame ≢ 0
    → After r.snapshot_frame fs
    → index_frames r fs ≡ r
unfolding index_frames
index_frames-After r [] ne after = refl
index_frames-After r (f ∷ fs) ne after =
    ap (λ s. index_frames s fs) (index_frame-After r f ne after.0)
    ∙ index_frames-After r fs ne after.1

snapshot-index_frames :
    (r : WalReader) (fs : List WalFrame) → (index_frames r fs).snapshot_frame ≡ r.snapshot_frame
unfolding index_frames
snapshot-index_frames r [] = refl
snapshot-index_frames r (f ∷ fs) =
    snapshot-index_frames (index_frame r f) fs ∙ snapshot-index_frame r f

index_frames-append :
    (r : WalReader) (fs gs : List WalFrame)
    → index_frames r (fs ++ gs) ≡ index_frames (index_frames r fs) gs
unfolding index_frames
index_frames-append r [] gs = refl
index_frames-append r (f ∷ fs) gs = index_frames-append (index_frame r f) fs gs

After-eq : (a b : ℕ) (fs : List WalFrame) → a ≡ b → After a fs → After b fs
After-eq a b fs e after = subst (λ n. After n fs) e after

-- A transaction that begins when frames are committed sees none that come later: a reader at its
-- snapshot is the same with them and without.
pub begin_read-isolated :
    (m : TransactionManager) (old new : List WalFrame)
    → m.current_frame ≢ 0
    → After m.current_frame new
    → index_frames (with_snapshot (begin_read m).0.snapshot_frame) (old ++ new)
      ≡ index_frames (with_snapshot (begin_read m).0.snapshot_frame) old
unfolding begin_read
begin_read-isolated m old new ne after =
    let r = index_frames (with_snapshot m.current_frame) old in
    let same : r.snapshot_frame ≡ m.current_frame =
      snapshot-index_frames (with_snapshot m.current_frame) old in
    index_frames-append (with_snapshot m.current_frame) old new
    ∙ index_frames-After r new (λ e. ne (sym same ∙ e)) (After-eq _ _ new (sym same) after)
