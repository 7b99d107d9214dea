-- ===== src/Wal/Recovery.antt =====
-- crates/cypherlite-storage/src/wal/recovery.rs: the replay of the log when the database is opened.
pub mod Replay
pub mod Atomic
pub mod Pages
pub mod Again
use cypher_lite.Prelude.{ℕ, zero, suc, ◌+◌, Option, none, some, ◌==◌, if◌then◌else◌, add_u64}
use cypher_lite.Core.{normal}
use cypher_lite.Core.Result.{Result, ok, err, panic}
use cypher_lite.File.{Bytes}
use cypher_lite.Page.Manager.{PageManager, write_page}
use cypher_lite.Wal.Format.{WalFrame, verify_checksum}
use cypher_lite.Wal.Writer.{WalWriter, open_writer, read_frame, reset}
use cypher_lite.Wal.Reader.{WalReader, new_reader, index_frame, clear}

-- The variables of the loop.
pub record Progress : Type 0 where
  pub page_manager : PageManager
  pub wal_reader : WalReader
  pub replayed : ℕ

-- One frame: a checksum mismatch is skipped.
unfoldable pub replay_frame : WalFrame → Progress → Progress
replay_frame f s =
    if verify_checksum f
    then record {
      page_manager = write_page s.page_manager f.page_number f.page_data;
      wal_reader = index_frame s.wal_reader f;
      replayed = add_u64 s.replayed 1;
    }
    else s

-- `for i in i..i + n`; a frame that cannot be read ends the loop.
unfoldable pub replay_frames : ℕ → ℕ → WalWriter → Progress → Progress
replay_frames zero i w s = s
replay_frames (suc n) i w s = elim (read_frame w i) [
  | ok f ↦ replay_frames n (i + 1) w (replay_frame f s)
  | err e ↦ s
  | panic ↦ s
]

-- What a recovery leaves: the count, the reader, the database and the log file.
pub record Recovered : Type 0 where
  pub replayed : ℕ
  pub wal_reader : WalReader
  pub page_manager : PageManager
  pub wal_file : Option Bytes

unfoldable pub recover_from : PageManager → WalWriter → Recovered
unfolding replay_frames replay_frame
recover_from pm w =
    let done =
      replay_frames w.header.frame_count 1 w
        (record { page_manager = pm; wal_reader = new_reader; replayed = 0 }) in
    if w.header.frame_count == 0
    then record { replayed = 0; wal_reader = new_reader; page_manager = pm; wal_file = some w.file }
    else record {
      replayed = done.replayed;
      wal_reader = clear done.wal_reader;
      page_manager = done.page_manager;
      wal_file = some (reset w).file;
    }

unfoldable pub recover_opened : PageManager → Option Bytes → Result WalWriter → Recovered
recover_opened pm file (ok w) = recover_from pm w
recover_opened pm file (err e) = record {
  replayed = 0;
  wal_reader = new_reader;
  page_manager = pm;
  wal_file = file;
}
recover_opened pm file panic = record {
  replayed = 0;
  wal_reader = new_reader;
  page_manager = pm;
  wal_file = file;
}

-- `none` is a log file that does not exist; the file that is there is opened, or cannot be.
unfoldable pub recover : PageManager → Option Bytes → Recovered
unfolding recover_opened
recover pm none = record {
  replayed = 0;
  wal_reader = new_reader;
  page_manager = pm;
  wal_file = none;
}
recover pm (some file) = recover_opened pm (some file) (open_writer file normal)
