-- ===== src/Wal/Checkpoint/Copy.antt =====
-- A checkpoint copies what a recovery would replay, and stops at the first wrong checksum.
use cypher_lite.Prelude.{
  ℕ, suc, ◌+◌, ◌≡◌, refl, sym, ap, ◌∙◌, subst, true, false, some, List, [], ◌∷◌, ◌++◌, arith,
  length, get_elem?, ◌==◌,
}
use cypher_lite.Core.{checksum_mismatch}
use cypher_lite.Core.Result.{Result, ok, err}
use cypher_lite.Page.Manager.{PageManager}
use cypher_lite.Wal.Format.{WalFrame, verify_checksum, compute_checksum}
use cypher_lite.Wal.Writer.{WalWriter, read_frame}
use cypher_lite.Wal.Writer.Layout.{HoldsFrames, read_frame-HoldsFrames}
use cypher_lite.Wal.Writer.Invariant.{AreIntact, reset-HoldsFrames}
use cypher_lite.Wal.Recovery.{recover}
use cypher_lite.Wal.Recovery.Replay.{applied, recover-HoldsFrames}
use cypher_lite.Wal.Checkpoint.{Files, copy_frames, finish, run}

-- The reader finds the frames `fs` from number `i` on.
abbrev Reads : WalWriter → ℕ → List WalFrame → Type 0
Reads w i fs = (j : ℕ) (f : WalFrame) → get_elem? fs j ≡ some f → read_frame w (i + j) ≡ ok f

Reads-head :
    (w : WalWriter) (i : ℕ) (f : WalFrame) (fs : List WalFrame)
    → Reads w i (f ∷ fs)
    → read_frame w i ≡ ok f
Reads-head w i f fs reads =
    let plus : i ≡ i + 0 = omega arith in ap (read_frame w) plus ∙ reads 0 f refl

Reads-tail :
    (w : WalWriter) (i : ℕ) (f : WalFrame) (fs : List WalFrame)
    → Reads w i (f ∷ fs)
    → Reads w (i + 1) fs
Reads-tail w i f fs reads j g at =
    let next : i + 1 + j ≡ i + suc j = omega arith in ap (read_frame w) next ∙ reads (suc j) g at

HoldsFrames-Reads :
    (w : WalWriter) (fs : List WalFrame) → HoldsFrames w.file w.header fs → Reads w 1 fs
HoldsFrames-Reads w fs v j f at =
    let shift : 1 + j ≡ j + 1 = omega arith in
    ap (read_frame w) shift ∙ read_frame-HoldsFrames w fs j f v at

copy_frames-intact :
    (fs : List WalFrame) (i : ℕ) (w : WalWriter) (pm : PageManager)
    → Reads w i fs
    → AreIntact fs
    → copy_frames (length fs) i w pm ≡ (ok tt, applied fs pm)
unfolding copy_frames applied
copy_frames-intact [] i w pm reads intact = refl
copy_frames-intact (f ∷ fs) i w pm reads intact =
    rw (Reads-head w i f fs reads, copy_frames, intact.0)
      (copy_frames-intact fs (i + 1) w _ (Reads-tail w i f fs reads) intact.1)

copy_frames-corrupt :
    (fs : List WalFrame) (f : WalFrame) (gs : List WalFrame) (i : ℕ) (w : WalWriter)
    (pm : PageManager)
    → Reads w i (fs ++ f ∷ gs)
    → AreIntact fs
    → verify_checksum f ≡ false
    → copy_frames (length (fs ++ f ∷ gs)) i w pm
      ≡ (err (checksum_mismatch (compute_checksum f) f.checksum), applied fs pm)
unfolding copy_frames applied
copy_frames-corrupt [] f gs i w pm reads intact bad =
    rw (Reads-head w i f gs reads, copy_frames, bad)
copy_frames-corrupt (e ∷ fs) f gs i w pm reads intact bad =
    rw (Reads-head w i e (fs ++ f ∷ gs) reads, copy_frames, intact.0)
      (copy_frames-corrupt fs f gs (i + 1) w _ (Reads-tail w i e (fs ++ f ∷ gs) reads) intact.1 bad)

run-finish :
    (s : Files) (f : WalFrame) (fs : List WalFrame)
    → s.wal_writer.header.frame_count ≡ length (f ∷ fs)
    → run s
      ≡ finish s (length (f ∷ fs)) (copy_frames (length (f ∷ fs)) 1 s.wal_writer s.page_manager)
unfolding run
run-finish s f fs counted =
    let some_frames : s.wal_writer.header.frame_count == 0 ≡ false = ground (arith, counted) in
    rw some_frames (ap (λ n. finish s n (copy_frames n 1 s.wal_writer s.page_manager)) counted)

-- Where every checksum is right, a checkpoint copies all frames: the database is the one that a
-- recovery would have built, and the log is empty.
pub run-intact :
    (s : Files) (fs : List WalFrame)
    → HoldsFrames s.wal_writer.file s.wal_writer.header fs
    → AreIntact fs
    → ((run s).0 ≡ ok (length fs))
      × ((run s).1.page_manager ≡ (recover s.page_manager (some s.wal_writer.file)).page_manager)
      × HoldsFrames (run s).1.wal_writer.file (run s).1.wal_writer.header []
unfolding finish applied
run-intact s [] v intact =
    let empty : s.wal_writer.header.frame_count == 0 ≡ true = ground (arith, v.counted) in
    let idle : run s ≡ (ok 0, s) = unfold run in rw empty in
    (
      ap (λ (r : Result ℕ × Files). r.0) idle,
      ap (λ (r : Result ℕ × Files). r.1.page_manager) idle
          ∙ sym (recover-HoldsFrames s.page_manager s.wal_writer.file [] v),
      subst (λ (r : Result ℕ × Files). HoldsFrames r.1.wal_writer.file r.1.wal_writer.header [])
          (sym idle) v,
    )
run-intact s (f ∷ fs) v intact =
    let w = s.wal_writer in
    let copied =
      copy_frames-intact (f ∷ fs) 1 w s.page_manager (HoldsFrames-Reads w (f ∷ fs) v) intact in
    let whole = run-finish s f fs v.counted ∙ ap (finish s (length (f ∷ fs))) copied in
    (
      ap (λ (r : Result ℕ × Files). r.0) whole,
      ap (λ (r : Result ℕ × Files). r.1.page_manager) whole
          ∙ sym (recover-HoldsFrames s.page_manager w.file (f ∷ fs) v),
      subst (λ (r : Result ℕ × Files). HoldsFrames r.1.wal_writer.file r.1.wal_writer.header [])
          (sym whole) (reset-HoldsFrames w v.header_fits),
    )

-- At the first wrong checksum a checkpoint ends with an error. The frames before it are in the
-- database, and the log and the reader are as they were.
pub run-corrupt :
    (s : Files) (fs : List WalFrame) (f : WalFrame) (gs : List WalFrame)
    → HoldsFrames s.wal_writer.file s.wal_writer.header (fs ++ f ∷ gs)
    → AreIntact fs
    → verify_checksum f ≡ false
    → run s ≡ (
      err (checksum_mismatch (compute_checksum f) f.checksum),
      record s { page_manager = applied fs s.page_manager },
    )
run-corrupt s fs f gs v intact bad =
    let w = s.wal_writer in
    let copied =
      copy_frames-corrupt fs f gs 1 w s.page_manager (HoldsFrames-Reads w (fs ++ f ∷ gs) v) intact
        bad in
    first fs v copied
  where
    first :
        (es : List WalFrame)
        → HoldsFrames s.wal_writer.file s.wal_writer.header (es ++ f ∷ gs)
        → copy_frames (length (es ++ f ∷ gs)) 1 s.wal_writer s.page_manager
          ≡ (err (checksum_mismatch (compute_checksum f) f.checksum), applied fs s.page_manager)
        → run s ≡ (
          err (checksum_mismatch (compute_checksum f) f.checksum),
          record s { page_manager = applied fs s.page_manager },
        )
    first [] v copied =
        run-finish s f gs v.counted ∙ (ap (finish s _) copied ∙ (unfold finish in refl))
    first (e ∷ es) v copied =
        run-finish s e (es ++ f ∷ gs) v.counted ∙ (ap (finish s _) copied ∙ (unfold finish in refl))
