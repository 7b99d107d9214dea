-- ===== src/Wal/Writer/History.antt =====
-- The writers that the program can make, with the frames that their log holds: an invariant of every
-- operation.
use cypher_lite.Prelude.{
  ℕ, ◌+◌, ◌*◌, ◌<◌, ◌≡◌, refl, ap, sym, subst, List, [], ◌∷◌, ◌++◌, arith, length, u64_mod, u32_mod,
  length-append,
}
use cypher_lite.Core.{SyncMode}
use cypher_lite.File.{Bytes}
use cypher_lite.Wal.Format.{page_size, wal_header_size, wal_frame_size, WalFrame, new_frame}
use cypher_lite.Wal.Format.Codec.{IsFrame}
use cypher_lite.Wal.Writer.{
  WalWriter, create, next_frame_number, write_frame, commit, discard, reset,
}
use cypher_lite.Wal.Writer.Layout.{AreFrames, AreFrames-append, HoldsFrames}
use cypher_lite.Wal.Writer.Commit.{IsLog, commit-HoldsFrames}
use cypher_lite.Wal.Writer.Exact.{IsExact, commit-IsExact, reset-IsExact, create-IsExact}
use cypher_lite.Wal.Writer.Invariant.{
  AreIntact, AreIntact-append, new_frame-IsFrame, verify_checksum-new_frame, create-IsLog,
  reset-HoldsFrames,
}

-- There is room in the log for one frame more.
abbrev pub HasRoom : WalWriter → List WalFrame → Type 0
HasRoom w fs =
    wal_header_size + (length fs + length w.uncommitted_frames + 1) * wal_frame_size < u64_mod

-- The step relation: `Reach w fs` if some operations made `w`, and its log holds `fs`.
pub data Reach : WalWriter → List WalFrame → Type 0 where
  created : (salt : ℕ) (mode : SyncMode) → salt < u64_mod → Reach (create salt mode) []
  wrote :
      {w : WalWriter} {fs : List WalFrame} (page_id db_size : ℕ) (bs : Bytes)
      → Reach w fs
      → page_id < u32_mod
      → db_size < u32_mod
      → length bs ≡ page_size
      → HasRoom w fs
      → Reach (write_frame w page_id db_size bs).1 fs
  committed :
      {w : WalWriter} {fs : List WalFrame}
      → Reach w fs
      → Reach (commit w).1 (fs ++ w.uncommitted_frames)
  discarded : {w : WalWriter} {fs : List WalFrame} → Reach w fs → Reach (discard w) fs
  emptied : {w : WalWriter} {fs : List WalFrame} → Reach w fs → Reach (reset w) []

-- The log is well formed, its file has nothing behind the frames, and every checksum in the file and the
-- buffer is right.
pub record IsGood (w : WalWriter) (fs : List WalFrame) : Type 0 where
  pub log : IsLog w fs
  pub exact : IsExact w fs
  pub intact : AreIntact fs
  pub intact_buffer : AreIntact w.uncommitted_frames

write_frame-IsGood :
    {w : WalWriter} {fs : List WalFrame} (page_id db_size : ℕ) (bs : Bytes)
    → IsGood w fs
    → page_id < u32_mod
    → db_size < u32_mod
    → length bs ≡ page_size
    → HasRoom w fs
    → IsGood (write_frame w page_id db_size bs).1 fs
unfolding write_frame next_frame_number
write_frame-IsGood {w} {fs} page_id db_size bs g hp hd size room =
    let n = next_frame_number w in
    let salt = w.header.salt in
    let frame = new_frame n page_id db_size salt bs in
    let fits : IsFrame frame =
      new_frame-IsFrame n page_id db_size salt bs (omega arith) hp hd
        g.log.committed.header_fits.salt size in
    record {
      log = record {
        committed = g.log.committed;
        buffered = AreFrames-append w.uncommitted_frames (frame ∷ []) g.log.buffered (fits, tt);
        room = omega (arith, length-append w.uncommitted_frames (frame ∷ []), room);
      };
      exact = g.exact;
      intact = g.intact;
      intact_buffer =
          AreIntact-append w.uncommitted_frames (frame ∷ []) g.intact_buffer
            (verify_checksum-new_frame n page_id db_size salt bs, tt);
    }

empty_buffer :
    {w : WalWriter} {fs : List WalFrame}
    → HoldsFrames w.file w.header fs
    → IsExact w fs
    → w.uncommitted_frames ≡ []
    → AreIntact fs
    → IsGood w fs
empty_buffer {w} {fs} held exact cleared intact = record {
  log = record {
    committed = held;
    buffered = subst AreFrames (sym cleared) tt;
    room = omega (arith, ap (λ (us : List WalFrame). length us) cleared, held.fits);
  };
  exact = exact;
  intact = intact;
  intact_buffer = subst AreIntact (sym cleared) tt;
}

commit-IsGood :
    {w : WalWriter} {fs : List WalFrame}
    → IsGood w fs
    → IsGood (commit w).1 (fs ++ w.uncommitted_frames)
commit-IsGood {w} {fs} g =
    let (held, cleared, count) = commit-HoldsFrames w fs g.log in
    empty_buffer held (commit-IsExact w fs g.log g.exact) cleared
      (AreIntact-append fs w.uncommitted_frames g.intact g.intact_buffer)

discard-IsGood : {w : WalWriter} {fs : List WalFrame} → IsGood w fs → IsGood (discard w) fs
unfolding discard
discard-IsGood g = empty_buffer g.log.committed g.exact refl g.intact

reset-IsGood : {w : WalWriter} {fs : List WalFrame} → IsGood w fs → IsGood (reset w) []
unfolding reset
reset-IsGood {w} g = record {
  log = record {
    committed = reset-HoldsFrames w g.log.committed.header_fits;
    buffered = g.log.buffered;
    room = omega (arith, g.log.room);
  };
  exact = reset-IsExact w;
  intact = tt;
  intact_buffer = g.intact_buffer;
}

pub Reach-IsGood : {w : WalWriter} {fs : List WalFrame} → Reach w fs → IsGood w fs
Reach-IsGood (created salt mode h) = record {
  log = create-IsLog salt mode h;
  exact = create-IsExact salt mode;
  intact = tt;
  intact_buffer = unfold create in tt;
}
Reach-IsGood (wrote p d bs r hp hd size room) =
    write_frame-IsGood p d bs (Reach-IsGood r) hp hd size room
Reach-IsGood (committed r) = commit-IsGood (Reach-IsGood r)
Reach-IsGood (discarded r) = discard-IsGood (Reach-IsGood r)
Reach-IsGood (emptied r) = reset-IsGood (Reach-IsGood r)
