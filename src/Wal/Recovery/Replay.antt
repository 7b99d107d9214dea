-- ===== src/Wal/Recovery/Replay.antt =====
-- Recovery writes every committed frame with a right checksum to its page, in order, whatever lies
-- behind the committed frames in the log file.
use cypher_lite.Prelude.{
  ℕ, suc, ◌+◌, ◌≡◌, refl, ap, ◌∙◌, true, false, some, List, [], ◌∷◌, ◌++◌, arith, length,
  length-append, get_elem?, ◌==◌, if◌then◌else◌, take-append,
}
use cypher_lite.Core.{normal}
use cypher_lite.Core.Result.{ok, ◌>>=◌}
use cypher_lite.File.{Bytes, read_at}
use cypher_lite.File.Laws.{read_at-inside}
use cypher_lite.Page.Manager.{PageManager, write_page}
use cypher_lite.Wal.Format.{wal_header_size, WalHeader, WalFrame, verify_checksum, header_to_bytes}
use cypher_lite.Wal.Format.Codec.{length-header_to_bytes, header_from_bytes-header_to_bytes}
use cypher_lite.Wal.Writer.{WalWriter, read_frame, open_writer}
use cypher_lite.Wal.Writer.Layout.{frames_to_bytes, HoldsFrames, read_frame-HoldsFrames}
use cypher_lite.Wal.Reader.{new_reader}
use cypher_lite.Wal.Recovery.{Progress, replay_frame, replay_frames, recover_from, recover}

-- The specification: the pages after the frames `fs`.
unfoldable pub applied : List WalFrame → PageManager → PageManager
applied [] pm = pm
applied (f ∷ fs) pm =
    applied fs (if verify_checksum f then write_page pm f.page_number f.page_data else pm)

page_manager-replay_frame :
    (f : WalFrame) (s : Progress)
    → (replay_frame f s).page_manager ≡ (
        if verify_checksum f
        then write_page s.page_manager f.page_number f.page_data
        else s.page_manager)
unfolding replay_frame
page_manager-replay_frame f s = ground arith

pub replay_frames-applied :
    (fs : List WalFrame) (i : ℕ) (w : WalWriter) (s : Progress)
    → ((j : ℕ) (f : WalFrame) → get_elem? fs j ≡ some f → read_frame w (i + j) ≡ ok f)
    → (replay_frames (length fs) i w s).page_manager ≡ applied fs s.page_manager
unfolding replay_frames applied
replay_frames-applied [] i w s reads = refl
replay_frames-applied (f ∷ fs) i w s reads =
    let plus : i ≡ i + 0 = omega arith in
    let here : read_frame w i ≡ ok f = ap (read_frame w) plus ∙ reads 0 f refl in
    let next : (j : ℕ) → i + 1 + j ≡ i + suc j = λ j. omega arith in
    rw (here, replay_frames)
      (replay_frames-applied fs (i + 1) w (replay_frame f s)
          (λ j g at. ap (read_frame w) (next j) ∙ reads (suc j) g at)
        ∙ ap (applied fs) (page_manager-replay_frame f s))

-- Opening a log finds its header.
pub open_writer-HoldsFrames :
    (file : Bytes) {header : WalHeader} {fs : List WalFrame} (v : HoldsFrames file header fs)
    → open_writer file normal
      ≡ ok (record { file = file; header = header; uncommitted_frames = []; sync_mode = normal })
unfolding open_writer
open_writer-HoldsFrames file {header} {fs} v =
    let hb = header_to_bytes header in
    let tail = frames_to_bytes fs ++ v.rest in
    let found : read_at 0 wal_header_size file ≡ ok hb =
      ap (read_at 0 wal_header_size) v.layout
      ∙ (read_at-inside 0 wal_header_size (hb ++ tail)
            (omega (arith, length-append hb tail, length-header_to_bytes header))
          ∙ ap ok (take-append wal_header_size hb tail (length-header_to_bytes header))) in
    rw (found, ◌>>=◌, header_from_bytes-header_to_bytes header v.header_fits)

recover_from-applied :
    (pm : PageManager) (w : WalWriter) (fs : List WalFrame)
    → HoldsFrames w.file w.header fs
    → (recover_from pm w).page_manager ≡ applied fs pm
unfolding recover_from
recover_from-applied pm w [] v =
    let empty : w.header.frame_count == 0 ≡ true = ground (arith, v.counted) in
    rw empty (unfold applied in refl)
recover_from-applied pm w (f ∷ fs) v =
    let start : Progress = record { page_manager = pm; wal_reader = new_reader; replayed = 0 } in
    let some_frames : w.header.frame_count == 0 ≡ false = ground (arith, v.counted) in
    let shift : (j : ℕ) → 1 + j ≡ j + 1 = λ j. omega arith in
    let all =
      replay_frames-applied (f ∷ fs) 1 w start
        (λ j g at. ap (read_frame w) (shift j) ∙ read_frame-HoldsFrames w (f ∷ fs) j g v at) in
    rw some_frames (ap (λ n. (replay_frames n 1 w start).page_manager) v.counted ∙ all)

-- What recovery does to the database depends on the committed frames only.
pub recover-HoldsFrames :
    (pm : PageManager) (file : Bytes) {header : WalHeader} (fs : List WalFrame)
    → HoldsFrames file header fs
    → (recover pm (some file)).page_manager ≡ applied fs pm
unfolding recover
recover-HoldsFrames pm file {header} fs v =
    let w : WalWriter = record {
      file = file;
      header = header;
      uncommitted_frames = [];
      sync_mode = normal;
    } in
    rw (open_writer-HoldsFrames file v) (recover_from-applied pm w fs v)
