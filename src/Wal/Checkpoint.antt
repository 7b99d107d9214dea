-- ===== src/Wal/Checkpoint.antt =====
-- crates/cypherlite-storage/src/wal/checkpoint.rs: the committed frames are copied into the database
-- file, and the log is emptied.
pub mod Copy
use cypher_lite.Prelude.{ℕ, zero, suc, ◌+◌, true, false, ◌==◌, if◌then◌else◌}
use cypher_lite.Core.{checksum_mismatch}
use cypher_lite.Core.Result.{Result, ok, err, panic}
use cypher_lite.Page.Manager.{PageManager, write_page}
use cypher_lite.Wal.Format.{verify_checksum, compute_checksum}
use cypher_lite.Wal.Writer.{WalWriter, read_frame, reset}
use cypher_lite.Wal.Reader.{WalReader, clear}

-- The three objects that a checkpoint changes.
pub record Files : Type 0 where
  pub page_manager : PageManager
  pub wal_writer : WalWriter
  pub wal_reader : WalReader

-- `for i in i..i + n`; what was written before an error stays written.
unfoldable pub copy_frames : ℕ → ℕ → WalWriter → PageManager → Result (Unit {0}) × PageManager
copy_frames zero i w pm = (ok tt, pm)
copy_frames (suc n) i w pm = elim (read_frame w i) [
  | err e ↦ (err e, pm)
  | panic ↦ (panic, pm)
  | ok f ↦ elim (verify_checksum f) [
    | true ↦ copy_frames n (i + 1) w (write_page pm f.page_number f.page_data)
    | false ↦ (err (checksum_mismatch (compute_checksum f) f.checksum), pm)
  ]
]

unfoldable pub finish : Files → ℕ → Result (Unit {0}) × PageManager → Result ℕ × Files
finish s count (ok _, pm) = (
  ok count,
  record { page_manager = pm; wal_writer = reset s.wal_writer; wal_reader = clear s.wal_reader },
)
finish s count (err e, pm) = (err e, record s { page_manager = pm })
finish s count (panic, pm) = (panic, record s { page_manager = pm })

unfoldable pub run : Files → Result ℕ × Files
unfolding copy_frames finish
run s =
    let count = s.wal_writer.header.frame_count in
    let copied = finish s count (copy_frames count 1 s.wal_writer s.page_manager) in
    if count == 0 then (ok 0, s) else copied
