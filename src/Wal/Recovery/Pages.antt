-- ===== src/Wal/Recovery/Pages.antt =====
-- What a page holds after recovery, and recovery after a crash of the recovery.
use cypher_lite.Prelude.{
  ℕ, ◌≡◌, refl, sym, ap, ◌∙◌, inl, inr, Bool, ◌&&◌, some, List, [], ◌∷◌, arith, length, ◌==◌,
  if◌then◌else◌, Bool-cases, ==_iff,
}
use cypher_lite.Core.Result.{Result, ok}
use cypher_lite.File.{Bytes}
use cypher_lite.Page.Manager.{PageManager, read_page, write_page}
use cypher_lite.Page.Manager.Pages.{
  HasPage, read_page-write_page, read_page-write_ne, HasPage-write_page,
}
use cypher_lite.Wal.Format.{WalHeader, page_size, WalFrame, verify_checksum}
use cypher_lite.Wal.Writer.Layout.{AreFrames, HoldsFrames}
use cypher_lite.Wal.Recovery.{recover}
use cypher_lite.Wal.Recovery.Replay.{applied, recover-HoldsFrames}

-- A frame that recovery writes to page `p`.
abbrev pub writes : ℕ → WalFrame → Bool
writes p f = verify_checksum f && f.page_number == p

-- The specification: the data of the last frame that writes page `p`, if one does.
abbrev pub last_write : ℕ → Result Bytes → List WalFrame → Result Bytes
last_write p before [] = before
last_write p before (f ∷ fs) = last_write p (if writes p f then ok f.page_data else before) fs

-- One frame of the replay.
abbrev step : WalFrame → PageManager → PageManager
step f pm = if verify_checksum f then write_page pm f.page_number f.page_data else pm

HasPage-step : (p : ℕ) (f : WalFrame) (pm : PageManager) → HasPage pm p → HasPage (step f pm) p
HasPage-step p f pm has = elim (Bool-cases (verify_checksum f)) [
  | inl good ↦ rw good (HasPage-write_page pm f.page_number p f.page_data has)
  | inr bad ↦ rw bad has
]

read_page-step :
    (p : ℕ) (f : WalFrame) (pm : PageManager)
    → length f.page_data ≡ page_size
    → HasPage pm p
    → read_page (step f pm) p ≡ (if writes p f then ok f.page_data else read_page pm p)
read_page-step p f pm size has = elim (Bool-cases (verify_checksum f)) [
  | inr bad ↦ rw bad
  | inl good ↦ rw good (elim (Bool-cases (f.page_number == p)) [
    | inl same ↦ rw same (
        ap (read_page (write_page pm f.page_number f.page_data)) (sym ((==_iff _ _).0 same))
        ∙ read_page-write_page pm f.page_number f.page_data size)
    | inr other ↦ rw other (
        read_page-write_ne pm f.page_number p f.page_data size
          (λ e. ground (arith, ==_iff f.page_number p)) has)
  ])
]

pub HasPage-applied :
    (p : ℕ) (fs : List WalFrame) (pm : PageManager) → HasPage pm p → HasPage (applied fs pm) p
unfolding applied
HasPage-applied p [] pm has = has
HasPage-applied p (f ∷ fs) pm has = HasPage-applied p fs (step f pm) (HasPage-step p f pm has)

pub applied-page :
    (p : ℕ) (fs : List WalFrame) (pm : PageManager)
    → AreFrames fs
    → HasPage pm p
    → read_page (applied fs pm) p ≡ last_write p (read_page pm p) fs
unfolding applied
applied-page p [] pm frames has = refl
applied-page p (f ∷ fs) pm frames has =
    applied-page p fs (step f pm) frames.1 (HasPage-step p f pm has)
    ∙ ap (λ b. last_write p b fs) (read_page-step p f pm frames.0.page_data has)

-- After recovery, a page that the database file has holds the data of the last committed frame for
-- it with a right checksum, or what it held before if there is none.
pub read_page-recover :
    (pm : PageManager) (file : Bytes) {header : WalHeader} (fs : List WalFrame) (p : ℕ)
    → HoldsFrames file header fs
    → HasPage pm p
    → read_page (recover pm (some file)).page_manager p ≡ last_write p (read_page pm p) fs
read_page-recover pm file fs p v has =
    ap (λ (m : PageManager). read_page m p) (recover-HoldsFrames pm file fs v)
    ∙ applied-page p fs pm v.frames has
