-- ===== src/Tests/Recovery.antt =====
-- Recovery and checkpoints at concrete inputs.
use cypher_lite.Prelude.{
  ap, sym, append-nil, ◌≤◌, ℕ, ◌≡◌, refl, some, List, [], ◌∷◌, ◌++◌, false, arith, length,
  replicate, length-replicate,
}
use cypher_lite.Core.{full, checksum_mismatch}
use cypher_lite.Core.Result.{ok, err}
use cypher_lite.File.{write_at}
use cypher_lite.File.Laws.{length-write_at}
use cypher_lite.Page.Header.{new_database_header, to_page}
use cypher_lite.Page.Manager.{create_database, read_page}
use cypher_lite.Page.Manager.Pages.{HasPage}
use cypher_lite.Wal.Format.{
  page_size, WalFrame, WalHeader, new_frame, new_header, header_to_bytes, frame_to_bytes,
  compute_checksum, add_chunks, verify_checksum,
}
use cypher_lite.Wal.Writer.{WalWriter, create, write_frame, commit}
use cypher_lite.Wal.Writer.Layout.{frames_to_bytes, HoldsFrames}
use cypher_lite.Wal.Writer.History.{IsGood, Reach-IsGood, committed}
use cypher_lite.Wal.Reader.{new_reader}
use cypher_lite.Wal.Recovery.{recover}
use cypher_lite.Wal.Recovery.Replay.{applied}
use cypher_lite.Wal.Recovery.Pages.{last_write, read_page-recover}
use cypher_lite.Wal.Recovery.Again.{interrupted, recover-interrupted}
use cypher_lite.Wal.Checkpoint.{Files, run}
use cypher_lite.Wal.Checkpoint.Copy.{run-intact, run-corrupt}
use cypher_lite.Tests.Wal.{blank, length-blank, one_frame, one_frame-Reach}

-- The log with one committed frame, of page 5.
abbrev logged : WalWriter
logged = (commit one_frame).1

abbrev frames : List WalFrame
frames = [] ++ one_frame.uncommitted_frames

logged-IsGood : IsGood logged frames
logged-IsGood = Reach-IsGood (committed one_frame-Reach)

has_map : HasPage create_database 1
unfolding create_database
has_map = omega (
  arith,
  length-write_at page_size (3 ∷ replicate 4095 0) (write_at 0 (to_page new_database_header) []),
  length-replicate {A = ℕ} 4095 0,
)

-- The free space map is untouched by the frame of page 5.
read_page-recover_example :
    read_page (recover create_database (some logged.file)).page_manager 1
    ≡ last_write 1 (read_page create_database 1) frames
read_page-recover_example =
    read_page-recover create_database logged.file frames 1 logged-IsGood.log.committed has_map

has_frame : 1 ≤ length frames
unfolding write_frame create
has_frame = omega arith

recover-interrupted_example :
    read_page (recover (interrupted 1 create_database logged) (some logged.file)).page_manager 1
    ≡ read_page (recover create_database (some logged.file)).page_manager 1
recover-interrupted_example =
    recover-interrupted create_database logged frames 1 1 logged-IsGood.log.committed has_frame
      has_map

abbrev files : Files
files = record { page_manager = create_database; wal_writer = logged; wal_reader = new_reader }

run-intact_example :
    ((run files).0 ≡ ok (length frames))
    × ((run files).1.page_manager ≡ (recover create_database (some logged.file)).page_manager)
    × HoldsFrames (run files).1.wal_writer.file (run files).1.wal_writer.header []
run-intact_example = run-intact files frames logged-IsGood.log.committed logged-IsGood.intact

-- A frame whose checksum a fault has changed.
abbrev damaged : WalFrame
damaged = record (new_frame 1 5 6 12345 blank) { checksum = 1 }

damaged_verify : verify_checksum damaged ≡ false
unfolding verify_checksum new_frame compute_checksum add_chunks replicate
damaged_verify = refl

abbrev damaged_header : WalHeader
damaged_header = record (new_header 12345) { frame_count = 1 }

abbrev damaged_log : WalWriter
damaged_log = record {
  file = header_to_bytes damaged_header ++ (frame_to_bytes damaged ++ []);
  header = damaged_header;
  uncommitted_frames = [];
  sync_mode = full;
}

damaged-HoldsFrames : HoldsFrames damaged_log.file damaged_log.header (damaged ∷ [])
unfolding frames_to_bytes new_header new_frame
damaged-HoldsFrames = record {
  rest = [];
  layout =
      ap (λ r. header_to_bytes damaged_header ++ r)
        (sym (append-nil (frame_to_bytes damaged ++ [])));
  header_fits = omega arith;
  counted = refl;
  frames = (
    record {
      frame_number = omega arith;
      page_number = omega arith;
      db_size = omega arith;
      salt = omega arith;
      checksum = omega arith;
      page_data = length-blank;
    },
    tt,
  );
  fits = omega arith;
}

abbrev damaged_files : Files
damaged_files = record {
  page_manager = create_database;
  wal_writer = damaged_log;
  wal_reader = new_reader;
}

run-corrupt_example : run damaged_files ≡ (
  err (checksum_mismatch (compute_checksum damaged) damaged.checksum),
  record damaged_files { page_manager = applied [] create_database },
)
run-corrupt_example = run-corrupt damaged_files [] damaged [] damaged-HoldsFrames tt damaged_verify
