-- ===== src/Wal/Writer/Invariant.antt =====
-- The log is well formed after any operations of the writer.
use cypher_lite.Prelude.{
  ℕ, ◌<◌, ◌≡◌, refl, sym, ap, ◌∙◌, List, [], ◌∷◌, ◌++◌, true, arith, length, drop, u64_mod, u32_mod,
  add_u64, append-nil, drop-nil, ==_refl,
}
use cypher_lite.Core.{SyncMode}
use cypher_lite.File
use cypher_lite.File.{Bytes, write_at, extend}
use cypher_lite.File.Laws.{write_at-append, extend-append}
use cypher_lite.Endian.{from_le}
use cypher_lite.Wal.Format.{
  page_size, wal_header_size, new_header, header_to_bytes, WalFrame, new_frame, add_chunks,
  compute_checksum, verify_checksum,
}
use cypher_lite.Wal.Format.Codec.{IsHeader, IsFrame, length-header_to_bytes}
use cypher_lite.Wal.Writer.{WalWriter, apply_op, apply_ops, create, reset}
use cypher_lite.Wal.Writer.Layout.{frames_to_bytes, HoldsFrames}
use cypher_lite.Wal.Writer.Cut.{apply_ops-sync}
use cypher_lite.Wal.Writer.Commit.{IsLog}

-- Every checksum of a frame is right.
abbrev pub AreIntact : List WalFrame → Type 0
AreIntact [] = Unit
AreIntact (f ∷ fs) = (verify_checksum f ≡ true) × AreIntact fs

pub AreIntact-append : (fs gs : List WalFrame) → AreIntact fs → AreIntact gs → AreIntact (fs ++ gs)
AreIntact-append [] gs p q = q
AreIntact-append (f ∷ fs) gs p q = (p.0, AreIntact-append fs gs p.1 q)

add_chunks-lt : (sum : ℕ) (bs : Bytes) → sum < u64_mod → add_chunks sum bs < u64_mod
unfolding add_chunks
add_chunks-lt sum (a ∷ b ∷ c ∷ d ∷ e ∷ f ∷ g ∷ h ∷ rest) lt =
    add_chunks-lt (add_u64 sum (from_le (a ∷ b ∷ c ∷ d ∷ e ∷ f ∷ g ∷ h ∷ []))) rest (omega arith)
add_chunks-lt sum [] lt = lt
add_chunks-lt sum (a ∷ bs) lt = omega arith

compute_checksum-lt : (f : WalFrame) → compute_checksum f < u64_mod
unfolding compute_checksum
compute_checksum-lt f = add_chunks-lt _ f.page_data (omega arith)

pub new_frame-IsFrame :
    (n p d salt : ℕ) (bs : Bytes)
    → n < u64_mod
    → p < u32_mod
    → d < u32_mod
    → salt < u64_mod
    → length bs ≡ page_size
    → IsFrame (new_frame n p d salt bs)
unfolding new_frame
new_frame-IsFrame n p d salt bs hn hp hd hs size = record {
  frame_number = hn;
  page_number = hp;
  db_size = hd;
  salt = hs;
  checksum = compute_checksum-lt _;
  page_data = size;
}

pub verify_checksum-new_frame :
    (n p d salt : ℕ) (bs : Bytes) → verify_checksum (new_frame n p d salt bs) ≡ true
unfolding new_frame verify_checksum compute_checksum
verify_checksum-new_frame n p d salt bs = ==_refl _

-- Emptying the file leaves its header alone.
pub reset_file :
    (w : WalWriter) → (reset w).file ≡ header_to_bytes (record w.header { frame_count = 0 })
unfolding reset apply_ops apply_op File.set_len
reset_file w =
    let hb = header_to_bytes (record w.header { frame_count = 0 }) in
    apply_ops-sync w.sync_mode _
    ∙ (ap (extend wal_header_size) (write_at-append 0 hb [] w.file refl)
        ∙ extend-append wal_header_size hb (drop (length hb) w.file)
            (length-header_to_bytes (record w.header { frame_count = 0 })))

pub reset-HoldsFrames :
    (w : WalWriter) → IsHeader w.header → HoldsFrames (reset w).file (reset w).header []
unfolding reset frames_to_bytes
reset-HoldsFrames w v = record {
  rest = [];
  layout = reset_file w ∙ sym (append-nil (header_to_bytes (record w.header { frame_count = 0 })));
  header_fits = record {
    magic = v.magic;
    format_version = v.format_version;
    frame_count = omega arith;
    salt = v.salt;
    header_checksum = v.header_checksum;
  };
  counted = refl;
  frames = tt;
  fits = omega arith;
}

new_header-IsHeader : (salt : ℕ) → salt < u64_mod → IsHeader (new_header salt)
unfolding new_header
new_header-IsHeader salt h = record {
  magic = omega arith;
  format_version = omega arith;
  frame_count = omega arith;
  salt = h;
  header_checksum = omega arith;
}

pub create_file :
    (salt : ℕ) (mode : SyncMode) → (create salt mode).file ≡ header_to_bytes (new_header salt)
unfolding create apply_ops apply_op
create_file salt mode =
    let hb = header_to_bytes (new_header salt) in
    apply_ops-sync mode (write_at 0 hb [])
    ∙ (write_at-append 0 hb [] [] refl ∙ (ap (λ r. hb ++ r) (drop-nil (length hb)) ∙ append-nil hb))

-- A new log is empty.
pub create-IsLog : (salt : ℕ) (mode : SyncMode) → salt < u64_mod → IsLog (create salt mode) []
unfolding create new_header frames_to_bytes
create-IsLog salt mode h = record {
  committed = record {
    rest = [];
    layout = create_file salt mode ∙ sym (append-nil (header_to_bytes (new_header salt)));
    header_fits = new_header-IsHeader salt h;
    counted = refl;
    frames = tt;
    fits = omega arith;
  };
  buffered = tt;
  room = omega arith;
}
