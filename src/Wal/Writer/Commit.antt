-- ===== src/Wal/Writer/Commit.antt =====
-- A commit appends the buffered frames, and a crash in the middle of it leaves either the old frames
-- or all of the new ones.
use cypher_lite.Prelude.{
  ℕ, ◌+◌, ◌*◌, ◌<◌, ◌≡◌, refl, sym, ap, ◌∙◌, subst, ◌⊎◌, inl, inr, List, [], ◌∷◌, ◌++◌, arith,
  length, u64_mod, length-append, append_assoc, append-nil,
}
use cypher_lite.File.{Bytes, write_at}
use cypher_lite.File.Laws.{write_at-front}
use cypher_lite.Wal.Format.{wal_header_size, wal_frame_size, header_to_bytes, WalFrame}
use cypher_lite.Wal.Format.Codec.{IsHeader, length-header_to_bytes}
use cypher_lite.Wal.Writer.{
  WalWriter, write, apply_op, apply_ops, sync_ops, frame_writes, write_offset, counted_header,
  commit_ops, commit_frames, commit_buffer, commit,
}
use cypher_lite.Wal.Writer.Layout.{
  frames_to_bytes, AreFrames, AreFrames-append, length-frames_to_bytes, frames_to_bytes-append,
  HoldsFrames,
}
use cypher_lite.Wal.Writer.Cut.{
  crash_file, apply_ops-append, crash_file-frame_writes, apply_ops-frame_writes, apply_ops-sync,
  crash_file-header,
}

-- The file holds the frames `fs` and the buffer holds frames, for which there is room.
pub record IsLog (w : WalWriter) (fs : List WalFrame) : Type 0 where
  pub committed : HoldsFrames w.file w.header fs
  pub buffered : AreFrames w.uncommitted_frames
  pub room : wal_header_size + (length fs + length w.uncommitted_frames) * wal_frame_size < u64_mod

module _ (w : WalWriter) (fs : List WalFrame) (log : IsLog w fs) where
  open log use {committed, buffered, room}

  abbrev hb : Bytes
  hb = header_to_bytes w.header

  abbrev front : Bytes
  front = hb ++ frames_to_bytes fs

  abbrev buffer : List WalFrame
  buffer = w.uncommitted_frames

  -- The header and the old frames end where the commit writes.
  pub length-front : length front ≡ write_offset w
  unfolding write_offset
  length-front = omega (
    arith,
    length-append (header_to_bytes w.header) (frames_to_bytes fs),
    length-header_to_bytes w.header,
    length-frames_to_bytes fs committed.frames,
    committed.counted,
    committed.fits,
  )

  counted-length : (counted_header w).frame_count ≡ length (fs ++ buffer)
  unfolding counted_header
  counted-length = omega (arith, committed.counted, length-append fs w.uncommitted_frames, room)

  counted-IsHeader : IsHeader (counted_header w)
  unfolding counted_header
  counted-IsHeader = record {
    magic = committed.header_fits.magic;
    format_version = committed.header_fits.format_version;
    frame_count = omega arith;
    salt = committed.header_fits.salt;
    header_checksum = committed.header_fits.header_checksum;
  }

  -- Anything behind the old frames leaves the old log.
  old : (file rest : Bytes) → file ≡ front ++ rest → HoldsFrames file w.header fs
  old file rest e = record {
    rest = rest;
    layout = e ∙ append_assoc hb (frames_to_bytes fs) rest;
    header_fits = committed.header_fits;
    counted = committed.counted;
    frames = committed.frames;
    fits = committed.fits;
  }

  -- The new header over the old and the new frames makes the new log.
  new :
      (file rest : Bytes)
      → file
        ≡ write_at 0
            (header_to_bytes (counted_header w))
            (front ++ (frames_to_bytes buffer ++ rest))
      → HoldsFrames file (counted_header w) (fs ++ buffer)
  new file rest e =
      let hb' = header_to_bytes (counted_header w) in
      let tail = frames_to_bytes buffer ++ rest in
      record {
        rest = rest;
        layout =
            e
            ∙ (ap (write_at 0 hb') (append_assoc hb (frames_to_bytes fs) tail)
                ∙ (write_at-front hb' hb (frames_to_bytes fs ++ tail) (
                      omega (
                        arith,
                        length-header_to_bytes w.header,
                        length-header_to_bytes (counted_header w),
                      ))
                    ∙ ap (λ r. hb' ++ r)
                        (sym (append_assoc (frames_to_bytes fs) (frames_to_bytes buffer) rest)
                          ∙ ap (λ r. r ++ rest) (sym (frames_to_bytes-append fs buffer)))));
        header_fits = counted-IsHeader;
        counted = counted-length;
        frames = AreFrames-append fs buffer committed.frames buffered;
        fits = omega (arith, length-append fs w.uncommitted_frames, room);
      }

  start : w.file ≡ front ++ committed.rest
  start = committed.layout ∙ sym (append_assoc hb (frames_to_bytes fs) committed.rest)

  positive : 0 < write_offset w
  positive = omega (
    arith,
    length-front,
    length-append (header_to_bytes w.header) (frames_to_bytes fs),
    length-header_to_bytes w.header,
  )

  -- A crash before the header is written leaves the old log, a later one the new log.
  pub crash_file-HoldsFrames :
      (k m : ℕ)
      → let file = crash_file k m (commit_ops w) w.file in
        HoldsFrames file w.header fs
        ⊎ HoldsFrames file (counted_header w) (fs ++ w.uncommitted_frames)
  unfolding commit_ops
  crash_file-HoldsFrames k m =
      let bs = header_to_bytes (counted_header w) in
      let ops = write 0 bs ∷ sync_ops w.sync_mode in
      let at_start = ap (crash_file k m (commit_ops w)) start in
      elim (crash_file-frame_writes m ops buffer k (write_offset w) front committed.rest buffered
        positive length-front) [
          | inl (r, cut) ↦ inl (old _ r (at_start ∙ cut))
          | inr (j, r, whole) ↦
              elim (crash_file-header j m bs w.sync_mode (front ++ (frames_to_bytes buffer ++ r))) [
                | inl same ↦ inl (old _ (frames_to_bytes buffer ++ r) (at_start ∙ (whole ∙ same)))
                | inr written ↦ inr (new _ r (at_start ∙ (whole ∙ written)))
              ]
        ]

  -- The buffered frames join the log.
  commit_frames-HoldsFrames :
      HoldsFrames (commit_frames w).1.file (counted_header w) (fs ++ w.uncommitted_frames)
  unfolding commit_frames commit_ops apply_ops apply_op
  commit_frames-HoldsFrames =
      let bs = header_to_bytes (counted_header w) in
      let writes = frame_writes (write_offset w) buffer in
      let ops = write 0 bs ∷ sync_ops w.sync_mode in
      let (r, appended) =
        apply_ops-frame_writes buffer (write_offset w) front committed.rest buffered length-front in
      new _ r (
        apply_ops-append writes ops w.file
        ∙ (apply_ops-sync w.sync_mode _
            ∙ ap (λ f. write_at 0 bs (apply_ops writes f)) start
            ∙ ap (write_at 0 bs) appended))

-- Every buffered frame joins the log, behind the frames that were there, and the buffer is empty.
pub commit-HoldsFrames :
    (w : WalWriter) (fs : List WalFrame)
    → IsLog w fs
    → HoldsFrames (commit w).1.file (commit w).1.header (fs ++ w.uncommitted_frames)
      × ((commit w).1.uncommitted_frames ≡ [])
      × ((commit w).0 ≡ length (fs ++ w.uncommitted_frames))
unfolding commit
commit-HoldsFrames w fs log = by_buffer w.uncommitted_frames refl
  where
    by_buffer :
        (us : List WalFrame)
        → w.uncommitted_frames ≡ us
        → HoldsFrames (commit_buffer us w).1.file (commit_buffer us w).1.header (fs ++ us)
          × ((commit_buffer us w).1.uncommitted_frames ≡ [])
          × ((commit_buffer us w).0 ≡ length (fs ++ us))
    by_buffer [] e = (
      subst (HoldsFrames w.file w.header) (sym (append-nil fs)) log.committed,
      e,
      log.committed.counted ∙ ap length (sym (append-nil fs)),
    )
    by_buffer (u ∷ us) e = (
      subst (λ us. HoldsFrames (commit_frames w).1.file (counted_header w) (fs ++ us)) e
          (commit_frames-HoldsFrames w fs log),
      refl,
      counted-length w fs log ∙ ap (λ us. length (fs ++ us)) e,
    )
