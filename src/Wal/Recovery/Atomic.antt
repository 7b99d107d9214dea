-- ===== src/Wal/Recovery/Atomic.antt =====
-- A transaction is in the database as a whole, or not at all, after a crash in its commit.
use cypher_lite.Prelude.{ℕ, ◌≡◌, sym, ◌∙◌, ◌⊎◌, inl, inr, some, List, ◌++◌}
use cypher_lite.Page.Manager.{PageManager}
use cypher_lite.Wal.Format.{WalFrame}
use cypher_lite.Wal.Writer.{WalWriter, commit_ops, commit}
use cypher_lite.Wal.Writer.Cut.{crash_file}
use cypher_lite.Wal.Writer.Commit.{IsLog, crash_file-HoldsFrames, commit-HoldsFrames}
use cypher_lite.Wal.Recovery.{recover}
use cypher_lite.Wal.Recovery.Replay.{recover-HoldsFrames}

-- The database that recovery builds from a log file.
abbrev pub database_after : PageManager → List ℕ → PageManager
database_after pm file = (recover pm (some file)).page_manager

-- Wherever a crash cuts the operations of a commit, between two of them or inside a frame, recovery
-- builds the database of before the commit, or that of after it.
pub recover-crash_file :
    (pm : PageManager) (w : WalWriter) (fs : List WalFrame) (k m : ℕ)
    → IsLog w fs
    → (database_after pm (crash_file k m (commit_ops w) w.file) ≡ database_after pm w.file)
      ⊎ (database_after pm (crash_file k m (commit_ops w) w.file)
          ≡ database_after pm (commit w).1.file)
recover-crash_file pm w fs k m log =
    let before = recover-HoldsFrames pm w.file fs log.committed in
    let after =
      recover-HoldsFrames pm (commit w).1.file (fs ++ w.uncommitted_frames)
        (commit-HoldsFrames w fs log).0 in
    elim (crash_file-HoldsFrames w fs log k m) [
      | inl old ↦ inl (recover-HoldsFrames pm _ fs old ∙ sym before)
      | inr new ↦ inr (recover-HoldsFrames pm _ (fs ++ w.uncommitted_frames) new ∙ sym after)
    ]
