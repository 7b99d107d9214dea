-- ===== src/Tests/Wal.antt =====
-- The log at concrete inputs.
use cypher_lite.Prelude.{
  ◌≡◌, refl, ◌⊎◌, some, List, [], ◌∷◌, ◌++◌, arith, length, replicate, length-replicate,
}
use cypher_lite.Core.{full}
use cypher_lite.OrdMap
use cypher_lite.File.{Bytes}
use cypher_lite.Page.Manager.{create_database}
use cypher_lite.Wal.Format.{
  page_size, WalHeader, WalFrame, new_frame, new_header, frame_to_bytes, frame_from_bytes,
  header_to_bytes, header_from_bytes, add_chunks, compute_checksum,
}
use cypher_lite.Wal.Format.Codec.{
  header_from_bytes-header_to_bytes, frame_from_bytes-frame_to_bytes,
}
use cypher_lite.Wal.Writer.{WalWriter, create, write_frame, commit, commit_ops}
use cypher_lite.Wal.Writer.Cut.{crash_file}
use cypher_lite.Wal.Writer.Commit.{IsLog}
use cypher_lite.Wal.Writer.Invariant.{new_frame-IsFrame, create-IsLog}
use cypher_lite.Wal.Writer.History.{Reach, created, wrote, committed, Reach-IsGood}
use cypher_lite.Wal.Writer.Numbers.{AreNumbered, Reach-AreNumbered}
use cypher_lite.Wal.Reader.{with_snapshot, index_frame}
use cypher_lite.Wal.Reader.Latest.{index_frames, IsLatest, index_frames-IsLatest}
use cypher_lite.Wal.Recovery.Atomic.{database_after, recover-crash_file}

-- A page of zeros.
abbrev pub blank : Bytes
blank = replicate page_size 0

pub length-blank : length blank ≡ page_size
length-blank = length-replicate page_size 0

abbrev pub fresh : WalWriter
fresh = create 12345 full

fresh-IsLog : IsLog fresh []
fresh-IsLog = create-IsLog 12345 full (omega arith)

abbrev pub one_frame : WalWriter
one_frame = (write_frame fresh 5 6 blank).1

pub fresh-Reach : Reach fresh []
fresh-Reach = created 12345 full (omega arith)

pub one_frame-Reach : Reach one_frame []
unfolding create
one_frame-Reach = wrote 5 6 blank fresh-Reach (omega arith) (omega arith) length-blank (omega arith)

Reach-AreNumbered_example : AreNumbered 0 ([] ++ one_frame.uncommitted_frames)
unfolding create
Reach-AreNumbered_example =
    Reach-AreNumbered
      (wrote 5 6 blank (created 12345 full (omega arith)) (omega arith) (omega arith) length-blank
        (omega arith))
      tt

pub one_frame-IsLog : IsLog one_frame []
one_frame-IsLog = (Reach-IsGood one_frame-Reach).log

-- A crash after 100 bytes of the only frame.
recover-crash_file_example :
    (database_after create_database (crash_file 0 100 (commit_ops one_frame) one_frame.file)
      ≡ database_after create_database one_frame.file)
    ⊎ (database_after create_database (crash_file 0 100 (commit_ops one_frame) one_frame.file)
        ≡ database_after create_database (commit one_frame).1.file)
recover-crash_file_example = recover-crash_file create_database one_frame [] 0 100 one_frame-IsLog

abbrev frame : WalFrame
frame = new_frame 1 5 6 12345 blank

abbrev header : WalHeader
header = new_header 12345

header_from_bytes-header_to_bytes_example : header_from_bytes (header_to_bytes header) ≡ header
header_from_bytes-header_to_bytes_example =
    header_from_bytes-header_to_bytes header (unfold create in fresh-IsLog.committed.header_fits)

frame_from_bytes-frame_to_bytes_example : frame_from_bytes (frame_to_bytes frame) ≡ some frame
frame_from_bytes-frame_to_bytes_example = frame_from_bytes-frame_to_bytes frame (
    new_frame-IsFrame 1 5 6 12345 blank (omega arith) (omega arith) (omega arith) (omega arith)
      length-blank)

-- Three frames of page 5, out of order, seen from a snapshot at frame 3.
abbrev frames : List WalFrame
frames = new_frame 3 5 6 1 [] ∷ new_frame 2 5 6 1 [] ∷ new_frame 4 5 6 1 [] ∷ []

index_frames-IsLatest_example :
    IsLatest 3 5 frames (OrdMap.get 5 (index_frames (with_snapshot 3) frames).index)
index_frames-IsLatest_example = index_frames-IsLatest 3 5 frames

latest_is_third :
    OrdMap.get 5 (index_frames (with_snapshot 3) frames).index ≡ some (new_frame 3 5 6 1 [])
unfolding index_frames index_frame new_frame compute_checksum add_chunks OrdMap.get OrdMap.insert
latest_is_third = refl
