-- ===== src/Wal/Writer/Cut.antt =====
-- The operations of a commit on the log file, all of them or up to a crash.
use cypher_lite.Prelude.{
  ℕ, zero, suc, ◌+◌, ◌<◌, ◌≡◌, refl, sym, ap, ◌∙◌, ◌⊎◌, inl, inr, List, [], ◌∷◌, ◌++◌, arith,
  length, take, drop, ◌==◌, false, if◌then◌else◌, length-append, append_assoc,
}
use cypher_lite.Core.{SyncMode, full, normal}
use cypher_lite.File.{Bytes, write_at}
use cypher_lite.File.Laws.{write_at-append_ge, write_at-append, write_at-nil}
use cypher_lite.Wal.Format.{wal_frame_size, WalFrame, frame_to_bytes}
use cypher_lite.Wal.Format.Codec.{length-frame_to_bytes}
use cypher_lite.Wal.Writer.{
  FileOp, write, set_len, sync_all, apply_op, apply_ops, sync_ops, frame_writes,
}
use cypher_lite.Wal.Writer.Layout.{frames_to_bytes, AreFrames}

-- An operation that a crash interrupts after `m` bytes. The header lies in one sector, which is
-- written whole or not at all.
unfoldable pub torn : ℕ → FileOp → FileOp
torn m (write offset bs) =
    if offset == 0 then (if m == 0 then write 0 [] else write 0 bs) else write offset (take m bs)
torn m (set_len n) = set_len n
torn m sync_all = sync_all

-- The file after a crash in operation `k`, which got as far as `m` bytes.
unfoldable pub crash_file : ℕ → ℕ → List FileOp → Bytes → Bytes
crash_file k m [] f = f
crash_file zero m (op ∷ ops) f = apply_op (torn m op) f
crash_file (suc k) m (op ∷ ops) f = crash_file k m ops (apply_op op f)

pub apply_ops-append :
    (xs ys : List FileOp) (f : Bytes) → apply_ops (xs ++ ys) f ≡ apply_ops ys (apply_ops xs f)
unfolding apply_ops
apply_ops-append [] ys f = refl
apply_ops-append (x ∷ xs) ys f = apply_ops-append xs ys (apply_op x f)

torn-frame :
    (m offset : ℕ) (bs : Bytes) → 0 < offset → torn m (write offset bs) ≡ write offset (take m bs)
unfolding torn
torn-frame m offset bs pos = ground arith

module _ (m : ℕ) (ops : List FileOp) where
  -- The file `x` still begins with `a`, or all of `us` follow `a` and the crash came later.
  abbrev pub CutOrWhole : List WalFrame → Bytes → Bytes → Type 0
  CutOrWhole us a x =
      ((rest : Bytes) × (x ≡ a ++ rest))
      ⊎ ((j : ℕ) × (rest : Bytes) × (x ≡ crash_file j m ops (a ++ (frames_to_bytes us ++ rest))))

  CutOrWhole-cons :
      (u : WalFrame) (us : List WalFrame) (a : Bytes) {x y : Bytes}
      → y ≡ x
      → CutOrWhole us (a ++ frame_to_bytes u) x
      → CutOrWhole (u ∷ us) a y
  unfolding frames_to_bytes
  CutOrWhole-cons u us a e (inl (rest, cut)) =
      inl (frame_to_bytes u ++ rest, e ∙ (cut ∙ append_assoc a (frame_to_bytes u) rest))
  CutOrWhole-cons u us a e (inr (j, rest, whole)) =
      let fb = frame_to_bytes u in
      let regroup =
        append_assoc a fb (frames_to_bytes us ++ rest)
        ∙ ap (λ r. a ++ r) (sym (append_assoc fb (frames_to_bytes us) rest)) in
      inr (j, rest, e ∙ (whole ∙ ap (crash_file j m ops) regroup))

  -- A crash in one of the frame writes keeps what stood before; else all frames are there.
  pub crash_file-frame_writes :
      (us : List WalFrame) (k offset : ℕ) (a t : Bytes)
      → AreFrames us
      → 0 < offset
      → length a ≡ offset
      → CutOrWhole us a (crash_file k m (frame_writes offset us ++ ops) (a ++ t))
  unfolding crash_file frame_writes frames_to_bytes apply_op
  crash_file-frame_writes [] k offset a t p pos h = inr (k, t, refl)
  crash_file-frame_writes (u ∷ us) zero offset a t p pos h =
      let (rest, e) = write_at-append_ge offset (take m (frame_to_bytes u)) a t (omega arith) in
      inl (rest, ap (λ op. apply_op op (a ++ t)) (torn-frame m offset (frame_to_bytes u) pos) ∙ e)
  crash_file-frame_writes (u ∷ us) (suc k) offset a t p pos h =
      let fb = frame_to_bytes u in
      let t' = drop (length fb) t in
      let longer : length (a ++ fb) ≡ offset + wal_frame_size =
        omega (arith, length-append a fb, length-frame_to_bytes u p.0.page_data) in
      CutOrWhole-cons u us a
        (ap (crash_file k m (frame_writes (offset + wal_frame_size) us ++ ops))
          (write_at-append offset fb a t h ∙ sym (append_assoc a fb t')))
        (crash_file-frame_writes us k (offset + wal_frame_size) (a ++ fb) t' p.1 (omega arith)
          longer)

-- Without a crash the frames stand behind `a`.
pub apply_ops-frame_writes :
    (us : List WalFrame) (offset : ℕ) (a t : Bytes)
    → AreFrames us
    → length a ≡ offset
    → (rest : Bytes) × (apply_ops (frame_writes offset us) (a ++ t)
        ≡ a ++ (frames_to_bytes us ++ rest))
unfolding apply_ops frame_writes frames_to_bytes
apply_ops-frame_writes [] offset a t p h = (t, refl)
apply_ops-frame_writes (u ∷ us) offset a t p h =
    let fb = frame_to_bytes u in
    let t' = drop (length fb) t in
    let longer : length (a ++ fb) ≡ offset + wal_frame_size =
      omega (arith, length-append a fb, length-frame_to_bytes u p.0.page_data) in
    let (rest, e) = apply_ops-frame_writes us (offset + wal_frame_size) (a ++ fb) t' p.1 longer in
    (
      rest,
      ap (apply_ops (frame_writes (offset + wal_frame_size) us))
            (write_at-append offset fb a t h ∙ sym (append_assoc a fb t'))
          ∙ (e
              ∙ (append_assoc a fb (frames_to_bytes us ++ rest)
                  ∙ ap (λ r. a ++ r) (sym (append_assoc fb (frames_to_bytes us) rest)))),
    )

pub apply_ops-sync : (s : SyncMode) (f : Bytes) → apply_ops (sync_ops s) f ≡ f
unfolding apply_ops sync_ops
apply_ops-sync full f = refl
apply_ops-sync normal f = refl

pub crash_file-sync : (k m : ℕ) (s : SyncMode) (f : Bytes) → crash_file k m (sync_ops s) f ≡ f
unfolding crash_file sync_ops torn apply_op
crash_file-sync zero m full f = refl
crash_file-sync (suc k) m full f = refl
crash_file-sync k m normal f = refl

-- A crash in the header's write or later: nothing of it is written, or all.
pub crash_file-header :
    (k m : ℕ) (bs : Bytes) (s : SyncMode) (f : Bytes)
    → (crash_file k m (write 0 bs ∷ sync_ops s) f ≡ f)
      ⊎ (crash_file k m (write 0 bs ∷ sync_ops s) f ≡ write_at 0 bs f)
unfolding crash_file torn apply_op
crash_file-header zero zero bs s f = inl (write_at-nil f)
crash_file-header zero (suc m) bs s f =
    let some_bytes : suc m == 0 ≡ false = ground arith in
    inr (ap (λ b. apply_op (if b then write 0 [] else write 0 bs) f) some_bytes)
crash_file-header (suc k) m bs s f = inr (crash_file-sync k m s (write_at 0 bs f))
