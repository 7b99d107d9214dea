-- ===== src/Wal/Writer/Exact.antt =====
-- The log file has nothing behind the committed frames (wal/writer.rs): a commit writes at its end, and a
-- reset cuts it.
use cypher_lite.Prelude.{
  ℕ, ◌+◌, ◌≡◌, refl, sym, ap, ◌∙◌, List, [], ◌∷◌, ◌++◌, arith, length, length-append, append_assoc,
  append-nil, drop-nil,
}
use cypher_lite.Core.{SyncMode}
use cypher_lite.File.{Bytes, write_at}
use cypher_lite.File.Laws.{write_at-append, write_at-front}
use cypher_lite.Wal.Format.{wal_frame_size, new_header, header_to_bytes, WalFrame, frame_to_bytes}
use cypher_lite.Wal.Format.Codec.{length-header_to_bytes, length-frame_to_bytes}
use cypher_lite.Wal.Writer.{
  WalWriter, write, apply_op, apply_ops, sync_ops, frame_writes, write_offset, counted_header,
  create, commit_ops, commit_frames, commit_buffer, commit, reset,
}
use cypher_lite.Wal.Writer.Layout.{frames_to_bytes, AreFrames, frames_to_bytes-append}
use cypher_lite.Wal.Writer.Cut.{apply_ops-append, apply_ops-sync}
use cypher_lite.Wal.Writer.Commit.{IsLog, length-front}
use cypher_lite.Wal.Writer.Invariant.{reset_file, create_file}

-- The file is the header and the frames `fs`, and no more.
abbrev pub IsExact : WalWriter → List WalFrame → Type 0
IsExact w fs = w.file ≡ header_to_bytes w.header ++ frames_to_bytes fs

-- A write at the end of a file makes it longer.
write_at_end : (o : ℕ) (bs a : Bytes) → length a ≡ o → write_at o bs a ≡ a ++ bs
write_at_end o bs a h =
    ap (write_at o bs) (sym (append-nil a))
    ∙ write_at-append o bs a [] h
    ∙ ap (λ r. a ++ (bs ++ r)) (drop-nil (length bs))
    ∙ ap (λ r. a ++ r) (append-nil bs)

frame_writes_end :
    (us : List WalFrame) (offset : ℕ) (a : Bytes)
    → AreFrames us
    → length a ≡ offset
    → apply_ops (frame_writes offset us) a ≡ a ++ frames_to_bytes us
unfolding apply_ops frame_writes frames_to_bytes apply_op
frame_writes_end [] offset a p h = sym (append-nil a)
frame_writes_end (u ∷ us) offset a p h =
    let fb = frame_to_bytes u in
    let longer : length (a ++ fb) ≡ offset + wal_frame_size =
      omega (arith, length-append a fb, length-frame_to_bytes u p.0.page_data) in
    ap (apply_ops (frame_writes (offset + wal_frame_size) us)) (write_at_end offset fb a h)
    ∙ frame_writes_end us (offset + wal_frame_size) (a ++ fb) p.1 longer
    ∙ append_assoc a fb (frames_to_bytes us)

commit_frames-IsExact :
    (w : WalWriter) (fs : List WalFrame)
    → IsLog w fs
    → IsExact w fs
    → (commit_frames w).1.file
      ≡ header_to_bytes (counted_header w) ++ frames_to_bytes (fs ++ w.uncommitted_frames)
unfolding commit_frames commit_ops apply_ops apply_op
commit_frames-IsExact w fs log exact =
    let us = w.uncommitted_frames in
    let old = header_to_bytes w.header in
    let new = header_to_bytes (counted_header w) in
    let writes = frame_writes (write_offset w) us in
    let appended : apply_ops writes w.file ≡ old ++ frames_to_bytes (fs ++ us) =
      ap (apply_ops writes) exact
      ∙ frame_writes_end us (write_offset w) (old ++ frames_to_bytes fs) log.buffered
          (length-front w fs log)
      ∙ append_assoc old (frames_to_bytes fs) (frames_to_bytes us)
      ∙ ap (λ r. old ++ r) (sym (frames_to_bytes-append fs us)) in
    apply_ops-append writes (write 0 new ∷ sync_ops w.sync_mode) w.file
    ∙ apply_ops-sync w.sync_mode _
    ∙ ap (write_at 0 new) appended
    ∙ write_at-front new old (frames_to_bytes (fs ++ us))
        (omega (arith, length-header_to_bytes w.header, length-header_to_bytes (counted_header w)))

pub commit-IsExact :
    (w : WalWriter) (fs : List WalFrame)
    → IsLog w fs
    → IsExact w fs
    → IsExact (commit w).1 (fs ++ w.uncommitted_frames)
unfolding commit
commit-IsExact w fs log exact = by_buffer w.uncommitted_frames refl
  where
    by_buffer :
        (us : List WalFrame) → w.uncommitted_frames ≡ us → IsExact (commit_buffer us w).1 (fs ++ us)
    by_buffer [] e =
        exact ∙ ap (λ gs. header_to_bytes w.header ++ frames_to_bytes gs) (sym (append-nil fs))
    by_buffer (u ∷ us) e =
        commit_frames-IsExact w fs log exact
        ∙ ap (λ gs. header_to_bytes (counted_header w) ++ frames_to_bytes (fs ++ gs)) e

pub reset-IsExact : (w : WalWriter) → IsExact (reset w) []
unfolding reset frames_to_bytes
reset-IsExact w =
    reset_file w ∙ sym (append-nil (header_to_bytes (record w.header { frame_count = 0 })))

pub create-IsExact : (salt : ℕ) (mode : SyncMode) → IsExact (create salt mode) []
unfolding create frames_to_bytes
create-IsExact salt mode =
    create_file salt mode ∙ sym (append-nil (header_to_bytes (new_header salt)))
