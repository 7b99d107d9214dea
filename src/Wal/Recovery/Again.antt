-- ===== src/Wal/Recovery/Again.antt =====
-- A crash in the middle of a recovery does no harm: the next recovery ends in the same pages.
use cypher_lite.Prelude.{
  ℕ, zero, suc, ◌+◌, ◌≤◌, ◌≡◌, refl, sym, ap, ◌∙◌, ◌⊎◌, inl, inr, some, List, [], ◌∷◌, arith,
  length, false, take, length-take, get_elem?-take, if◌then◌else◌, Bool-cases,
}
use cypher_lite.Core.Result.{Result, ok}
use cypher_lite.File.{Bytes}
use cypher_lite.Page.Manager.{PageManager, read_page}
use cypher_lite.Page.Manager.Pages.{HasPage}
use cypher_lite.Wal.Format.{WalFrame}
use cypher_lite.Wal.Writer.{WalWriter, read_frame}
use cypher_lite.Wal.Writer.Layout.{AreFrames, HoldsFrames, read_frame-HoldsFrames}
use cypher_lite.Wal.Reader.{new_reader}
use cypher_lite.Wal.Recovery.{Progress, replay_frames, recover}
use cypher_lite.Wal.Recovery.Replay.{applied, replay_frames-applied}
use cypher_lite.Wal.Recovery.Pages.{
  writes, last_write, applied-page, HasPage-applied, read_page-recover,
}

-- Either some frame writes the page, and what it held before is forgotten, or none does.
last_write-cases :
    (p : ℕ) (fs : List WalFrame)
    → ((b c : Result Bytes) → last_write p b fs ≡ last_write p c fs)
      ⊎ ((k : ℕ) (b : Result Bytes) → last_write p b (take k fs) ≡ b)
last_write-cases p [] = inr none_written
  where
    none_written : (k : ℕ) (b : Result Bytes) → last_write p b (take k []) ≡ b
    none_written zero b = refl
    none_written (suc k) b = refl
last_write-cases p (f ∷ fs) = elim (Bool-cases (writes p f)) [
  | inl hit ↦ inl (λ b c. rw hit)
  | inr miss ↦ elim (last_write-cases p fs) [
    | inl forgets ↦ inl (λ b c. rw miss (forgets b c))
    | inr keeps ↦ inr (λ k b. skipped miss keeps k b)
  ]
]
  where
    skipped :
        writes p f ≡ false
        → ((k : ℕ) (b : Result Bytes) → last_write p b (take k fs) ≡ b)
        → (k : ℕ) (b : Result Bytes) → last_write p b (take k (f ∷ fs)) ≡ b
    skipped miss keeps zero b = refl
    skipped miss keeps (suc k) b =
        ap (λ c. last_write p (if c then ok f.page_data else b) (take k fs)) miss ∙ keeps k b

last_write-again :
    (p k : ℕ) (fs : List WalFrame) (b : Result Bytes)
    → last_write p (last_write p b (take k fs)) fs ≡ last_write p b fs
last_write-again p k fs b = elim (last_write-cases p fs) [
  | inl forgets ↦ forgets (last_write p b (take k fs)) b
  | inr keeps ↦ ap (λ c. last_write p c fs) (keeps k b)
]

AreFrames-take : (k : ℕ) (fs : List WalFrame) → AreFrames fs → AreFrames (take k fs)
AreFrames-take zero fs v = tt
AreFrames-take (suc k) [] v = tt
AreFrames-take (suc k) (f ∷ fs) v = (v.0, AreFrames-take k fs v.1)

-- The database when the loop of a recovery stops after `k` frames.
abbrev pub interrupted : ℕ → PageManager → WalWriter → PageManager
interrupted k pm w =
    (replay_frames k 1 w
      (record { page_manager = pm; wal_reader = new_reader; replayed = 0 })).page_manager

interrupted-applied :
    (k : ℕ) (pm : PageManager) (w : WalWriter) (fs : List WalFrame)
    → HoldsFrames w.file w.header fs
    → k ≤ length fs
    → interrupted k pm w ≡ applied (take k fs) pm
interrupted-applied k pm w fs v short =
    let start : Progress = record { page_manager = pm; wal_reader = new_reader; replayed = 0 } in
    let shift : (j : ℕ) → 1 + j ≡ j + 1 = λ j. omega arith in
    let count : k ≡ length (take k fs) = omega (arith, length-take k fs) in
    ap (λ n. (replay_frames n 1 w start).page_manager) count
    ∙ replay_frames-applied (take k fs) 1 w start (λ j f at.
      ap (read_frame w) (shift j) ∙ read_frame-HoldsFrames w fs j f v (get_elem?-take k fs j f at))

-- Recovery of a database in which an earlier recovery wrote the first `k` frames and then crashed
-- ends with every page of the database file as the recovery without the crash.
pub recover-interrupted :
    (pm : PageManager) (w : WalWriter) (fs : List WalFrame) (k p : ℕ)
    → HoldsFrames w.file w.header fs
    → k ≤ length fs
    → HasPage pm p
    → read_page (recover (interrupted k pm w) (some w.file)).page_manager p
      ≡ read_page (recover pm (some w.file)).page_manager p
recover-interrupted pm w fs k p v short has =
    let same = interrupted-applied k pm w fs v short in
    let frames = AreFrames-take k fs v.frames in
    ap (λ m. read_page (recover m (some w.file)).page_manager p) same
    ∙ (read_page-recover (applied (take k fs) pm) w.file fs p v
          (HasPage-applied p (take k fs) pm has)
        ∙ (ap (λ b. last_write p b fs) (applied-page p (take k fs) pm frames has)
            ∙ (last_write-again p k fs (read_page pm p)
                ∙ sym (read_page-recover pm w.file fs p v has))))
