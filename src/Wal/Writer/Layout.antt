-- ===== src/Wal/Writer/Layout.antt =====
-- The layout of the log file: the header, the committed frames, and what lies behind them.
use cypher_lite.Prelude.{
  ℕ, zero, suc, ◌+◌, ◌*◌, ◌<◌, ◌≡◌, refl, sym, ap, ◌∙◌, subst, some, List, [], ◌∷◌, ◌++◌, arith,
  length, get_elem?, take, drop, u64_mod, length-append, drop-append_ge, take-append, append_assoc,
}
use cypher_lite.Core.Result.{ok, ◌>>=◌}
use cypher_lite.File.{Bytes, read_at}
use cypher_lite.File.Laws.{read_at-inside}
use cypher_lite.Wal.Format.{
  wal_header_size, wal_frame_size, WalHeader, header_to_bytes, WalFrame, frame_to_bytes,
}
use cypher_lite.Wal.Format.Codec.{
  IsHeader, IsFrame, length-header_to_bytes, length-frame_to_bytes, frame_from_bytes-frame_to_bytes,
}
use cypher_lite.Wal.Writer.{WalWriter, frame_offset, read_frame}

-- The bytes of a run of frames.
unfoldable pub frames_to_bytes : List WalFrame → Bytes
frames_to_bytes [] = []
frames_to_bytes (f ∷ fs) = frame_to_bytes f ++ frames_to_bytes fs

abbrev pub AreFrames : List WalFrame → Type 0
AreFrames [] = Unit
AreFrames (f ∷ fs) = IsFrame f × AreFrames fs

pub AreFrames-append : (fs gs : List WalFrame) → AreFrames fs → AreFrames gs → AreFrames (fs ++ gs)
AreFrames-append [] gs p q = q
AreFrames-append (f ∷ fs) gs p q = (p.0, AreFrames-append fs gs p.1 q)

pub length-frames_to_bytes :
    (fs : List WalFrame) → AreFrames fs → length (frames_to_bytes fs) ≡ length fs * wal_frame_size
unfolding frames_to_bytes
length-frames_to_bytes [] p = refl
length-frames_to_bytes (f ∷ fs) p = omega (
  arith,
  length-append (frame_to_bytes f) (frames_to_bytes fs),
  length-frame_to_bytes f p.0.page_data,
  length-frames_to_bytes fs p.1,
)

pub frames_to_bytes-append :
    (fs gs : List WalFrame) → frames_to_bytes (fs ++ gs) ≡ frames_to_bytes fs ++ frames_to_bytes gs
unfolding frames_to_bytes
frames_to_bytes-append [] gs = refl
frames_to_bytes-append (f ∷ fs) gs =
    rw (frames_to_bytes-append fs gs) (sym (append_assoc (frame_to_bytes f) _ _))

-- The file holds `header`, then exactly the frames `fs`, then anything.
pub record HoldsFrames (file : Bytes) (header : WalHeader) (fs : List WalFrame) : Type 0 where
  pub rest : Bytes
  pub layout : file ≡ header_to_bytes header ++ (frames_to_bytes fs ++ rest)
  pub header_fits : IsHeader header
  pub counted : header.frame_count ≡ length fs
  pub frames : AreFrames fs
  pub fits : wal_header_size + length fs * wal_frame_size < u64_mod

slice-frames_to_bytes :
    (fs : List WalFrame) (i : ℕ) (f : WalFrame) (rest : Bytes)
    → AreFrames fs
    → get_elem? fs i ≡ some f
    → take wal_frame_size (drop (i * wal_frame_size) (frames_to_bytes fs ++ rest))
      ≡ frame_to_bytes f
unfolding frames_to_bytes
slice-frames_to_bytes [] i f rest p h = cc
slice-frames_to_bytes (g ∷ fs) zero f rest p h =
    let same : g ≡ f = cc in
    ap (take wal_frame_size) (append_assoc (frame_to_bytes g) (frames_to_bytes fs) rest)
    ∙ (take-append wal_frame_size (frame_to_bytes g) (frames_to_bytes fs ++ rest)
          (length-frame_to_bytes g p.0.page_data)
        ∙ ap frame_to_bytes same)
slice-frames_to_bytes (g ∷ fs) (suc i) f rest p h =
    let size = length-frame_to_bytes g p.0.page_data in
    ap (take wal_frame_size) (
      ap (drop (suc i * wal_frame_size)) (append_assoc (frame_to_bytes g) (frames_to_bytes fs) rest)
      ∙ (drop-append_ge (suc i * wal_frame_size) (frame_to_bytes g) _ (omega arith)
          ∙ ap (λ k. drop k (frames_to_bytes fs ++ rest)) (omega arith)))
    ∙ slice-frames_to_bytes fs i f rest p.1 h

IsFrame-get_elem? :
    (fs : List WalFrame) (i : ℕ) (f : WalFrame) → AreFrames fs → get_elem? fs i ≡ some f → IsFrame f
IsFrame-get_elem? [] i f p h = cc
IsFrame-get_elem? (g ∷ fs) zero f p h = let same : g ≡ f = cc in subst IsFrame same p.0
IsFrame-get_elem? (g ∷ fs) (suc i) f p h = IsFrame-get_elem? fs i f p.1 h

pub get_elem?-lt {ℓ} :
    {A : Type ℓ} (xs : List A) (i : ℕ) (a : A) → get_elem? xs i ≡ some a → i < length xs
get_elem?-lt [] i a h = cc
get_elem?-lt (x ∷ xs) zero a h = omega arith
get_elem?-lt (x ∷ xs) (suc i) a h = omega (arith, get_elem?-lt xs i a h)

frame_offset-suc :
    (i : ℕ)
    → wal_header_size + suc i * wal_frame_size < u64_mod
    → frame_offset (i + 1) ≡ wal_header_size + i * wal_frame_size
unfolding frame_offset
frame_offset-suc i h = omega arith

read_at-HoldsFrames :
    (file : Bytes) {header : WalHeader} (fs : List WalFrame) (i : ℕ) (f : WalFrame)
    → HoldsFrames file header fs
    → get_elem? fs i ≡ some f
    → read_at (wal_header_size + i * wal_frame_size) wal_frame_size file ≡ ok (frame_to_bytes f)
read_at-HoldsFrames file {header} fs i f v h =
    let inside : i < length fs = get_elem?-lt fs i f h in
    let hb = header_to_bytes header in
    let body = frames_to_bytes fs ++ v.rest in
    let long : length (hb ++ body) ≡ 32 + (length fs * wal_frame_size + length v.rest) = omega (
      arith,
      length-append hb body,
      length-append (frames_to_bytes fs) v.rest,
      length-frames_to_bytes fs v.frames,
      length-header_to_bytes header,
    ) in
    ap (read_at (wal_header_size + i * wal_frame_size) wal_frame_size) v.layout
    ∙ (read_at-inside (wal_header_size + i * wal_frame_size) wal_frame_size (hb ++ body)
          (omega arith)
        ∙ ap ok (
            ap (take wal_frame_size) (
              drop-append_ge (wal_header_size + i * wal_frame_size) hb body
                (omega (arith, length-header_to_bytes header))
              ∙ ap (λ k. drop k body) (omega (arith, length-header_to_bytes header)))
            ∙ slice-frames_to_bytes fs i f v.rest v.frames h))

-- The frame with number `i + 1` stands behind the header and `i` frames, and is read back.
pub read_frame-HoldsFrames :
    (w : WalWriter) {header : WalHeader} (fs : List WalFrame) (i : ℕ) (f : WalFrame)
    → HoldsFrames w.file header fs
    → get_elem? fs i ≡ some f
    → read_frame w (i + 1) ≡ ok f
unfolding read_frame
read_frame-HoldsFrames w fs i f v h =
    let inside : i < length fs = get_elem?-lt fs i f h in
    rw (
      frame_offset-suc i (omega (arith, v.fits)),
      read_at-HoldsFrames w.file fs i f v h,
      ◌>>=◌,
      frame_from_bytes-frame_to_bytes f (IsFrame-get_elem? fs i f v.frames h),
    )
