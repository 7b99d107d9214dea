-- ===== src/Wal/Writer.antt =====
-- crates/cypherlite-storage/src/wal/writer.rs: frames are buffered, and a commit appends them to the
-- log file. What a commit does to the file is a list of operations, so that a crash can cut it.
pub mod Layout
pub mod Cut
pub mod Commit
pub mod Invariant
pub mod Exact
pub mod History
pub mod Numbers
use cypher_lite.Prelude.{
  ℕ, ◌+◌, ◌-◌, ◌*◌, ◌%◌, Option, none, some, List, [], ◌∷◌, ◌++◌, add_u64, u64_mod, length,
}
use cypher_lite.Core.{SyncMode, full, normal, PageId, corrupted_page}
use cypher_lite.Core.Result.{Result, ok, err, ok_or, ◌>>=◌}
use cypher_lite.File
use cypher_lite.File.{Bytes, write_at, read_at}
use cypher_lite.Wal.Format.{
  wal_header_size, wal_frame_size, WalHeader, new_header, header_to_bytes, header_from_bytes,
  WalFrame, new_frame, frame_to_bytes, frame_from_bytes,
}

pub record WalWriter : Type 0 where
  pub file : Bytes
  pub header : WalHeader
  pub uncommitted_frames : List WalFrame
  pub sync_mode : SyncMode

-- An operation on the log file.
pub data FileOp : Type 0 where
  write : ℕ → Bytes → FileOp
  set_len : ℕ → FileOp
  sync_all : FileOp

unfoldable pub apply_op : FileOp → Bytes → Bytes
apply_op (write offset bs) f = write_at offset bs f
apply_op (set_len n) f = File.set_len n f
apply_op sync_all f = f

unfoldable pub apply_ops : List FileOp → Bytes → Bytes
unfolding apply_op
apply_ops [] f = f
apply_ops (op ∷ ops) f = apply_ops ops (apply_op op f)

-- `if matches!(sync_mode, SyncMode::Full) { sync_all }`
unfoldable pub sync_ops : SyncMode → List FileOp
sync_ops full = sync_all ∷ []
sync_ops normal = []

unfoldable pub create : ℕ → SyncMode → WalWriter
create salt sync_mode =
    let header = new_header salt in
    record {
      file = apply_ops (write 0 (header_to_bytes header) ∷ sync_ops sync_mode) [];
      header = header;
      uncommitted_frames = [];
      sync_mode = sync_mode;
    }

unfoldable pub open_writer : Bytes → SyncMode → Result WalWriter
open_writer file sync_mode = do
  hdr_buf ← read_at 0 wal_header_size file
  ok (record {
    file = file;
    header = header_from_bytes hdr_buf;
    uncommitted_frames = [];
    sync_mode = sync_mode;
  })

unfoldable pub next_frame_number : WalWriter → ℕ
next_frame_number w = add_u64 (add_u64 w.header.frame_count (length w.uncommitted_frames)) 1

unfoldable pub write_frame : WalWriter → PageId → ℕ → Bytes → ℕ × WalWriter
write_frame w page_id db_size page_data =
    let frame_number = next_frame_number w in
    let frame = new_frame frame_number page_id db_size w.header.salt page_data in
    (frame_number, record w { uncommitted_frames = w.uncommitted_frames ++ frame ∷ [] })

-- `write_all` of each frame, one behind the other.
unfoldable pub frame_writes : ℕ → List WalFrame → List FileOp
frame_writes offset [] = []
frame_writes offset (f ∷ fs) =
    write offset (frame_to_bytes f) ∷ frame_writes (offset + wal_frame_size) fs

-- The offset behind the committed frames.
unfoldable pub write_offset : WalWriter → ℕ
write_offset w = add_u64 wal_header_size ((w.header.frame_count * wal_frame_size) % u64_mod)

unfoldable pub counted_header : WalWriter → WalHeader
counted_header w = record w.header {
  frame_count = add_u64 w.header.frame_count (length w.uncommitted_frames);
}

-- The operations of a commit of at least one frame, in order.
unfoldable pub commit_ops : WalWriter → List FileOp
commit_ops w =
    frame_writes (write_offset w) w.uncommitted_frames
    ++ write 0 (header_to_bytes (counted_header w)) ∷ sync_ops w.sync_mode

unfoldable pub commit_frames : WalWriter → ℕ × WalWriter
commit_frames w =
    let header = counted_header w in
    (
      header.frame_count,
      record w { file = apply_ops (commit_ops w) w.file; header = header; uncommitted_frames = [] },
    )

-- `if self.uncommitted_frames.is_empty()`
unfoldable pub commit_buffer : List WalFrame → WalWriter → ℕ × WalWriter
commit_buffer [] w = (w.header.frame_count, w)
commit_buffer (f ∷ fs) w = commit_frames w

unfoldable pub commit : WalWriter → ℕ × WalWriter
unfolding commit_frames commit_buffer
commit w = commit_buffer w.uncommitted_frames w

unfoldable pub discard : WalWriter → WalWriter
discard w = record w { uncommitted_frames = [] }

unfoldable pub reset : WalWriter → WalWriter
reset w =
    let header = record w.header { frame_count = 0 } in
    record w {
      file =
          apply_ops
            (write 0 (header_to_bytes header) ∷ set_len wal_header_size ∷ sync_ops w.sync_mode)
            w.file;
      header = header;
    }

-- `frame_number - 1` wraps at zero.
unfoldable pub frame_offset : ℕ → ℕ
frame_offset frame_number =
    add_u64 wal_header_size ((add_u64 frame_number (u64_mod - 1) * wal_frame_size) % u64_mod)

unfoldable pub read_frame : WalWriter → ℕ → Result WalFrame
read_frame w frame_number = do
  buf ← read_at (frame_offset frame_number) wal_frame_size w.file
  ok_or (frame_from_bytes buf) (corrupted_page 0 "Invalid WAL frame")
