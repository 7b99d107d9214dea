-- ===== src/Page/Manager/Growth.antt =====
-- What growing the page count and the file leaves as it was.
use cypher_lite.Prelude.{
  ℕ, ◌+◌, ◌*◌, ◌≡◌, ◌≢◌, refl, sym, arith, length, length-replicate, leb, ltb, inl, inr, Bool-cases,
}
use cypher_lite.File.{Bytes}
use cypher_lite.Wal.Format.{page_size}
use cypher_lite.Page.Header.Codec.{length-to_page}
use cypher_lite.Page.Manager.{
  PageManager, read_page, write_page, flush_header, grow_page_count, grow_file,
}
use cypher_lite.Page.Manager.Pages.{
  HasPage, read_page-write_ne, HasPage-write_page, HasPage-write_self,
}

-- A step that leaves page `q` as it was.
abbrev pub Keeps : PageManager → PageManager → ℕ → Type 0
Keeps pm pm' q = HasPage pm' q × (read_page pm' q ≡ read_page pm q)

pub write_page-Keeps :
    (pm : PageManager) (p q : ℕ) (bs : Bytes)
    → length bs ≡ page_size
    → p ≢ q
    → HasPage pm q
    → Keeps pm (write_page pm p bs) q
write_page-Keeps pm p q bs size ne has =
    (HasPage-write_page pm p q bs has, read_page-write_ne pm p q bs size ne has)

pub grow_page_count-Keeps :
    (pm : PageManager) (p q : ℕ) → q ≢ 0 → HasPage pm q → Keeps pm (grow_page_count pm p) q
unfolding grow_page_count flush_header read_page
grow_page_count-Keeps pm p q ne has = elim (Bool-cases (leb pm.header.page_count p)) [
  | inl grows ↦ rw grows (write_page-Keeps _ 0 q _ (length-to_page _) (λ e. ne (sym e)) has)
  | inr stays ↦ rw stays (has, refl)
]

pub grow_file-Keeps : (pm : PageManager) (p q : ℕ) → HasPage pm q → Keeps pm (grow_file pm p) q
unfolding grow_file
grow_file-Keeps pm p q has = elim (Bool-cases (ltb (length pm.file) ((p + 1) * page_size))) [
  | inl short ↦
      rw short (write_page-Keeps pm p q _ (length-replicate page_size 0) (λ e. ground arith) has)
  | inr long ↦ rw long (has, refl)
]

pub grow_file-HasPage : (pm : PageManager) (p : ℕ) → HasPage (grow_file pm p) p
unfolding grow_file
grow_file-HasPage pm p = elim (Bool-cases (ltb (length pm.file) ((p + 1) * page_size))) [
  | inl short ↦ rw short (HasPage-write_self pm p _ (length-replicate page_size 0))
  | inr long ↦ rw long (ground arith)
]

pub hint-grow_page_count :
    (pm : PageManager) (p : ℕ) → (grow_page_count pm p).next_free_hint ≡ pm.next_free_hint
unfolding grow_page_count flush_header write_page
hint-grow_page_count pm p = elim (Bool-cases (leb pm.header.page_count p)) [
  | inl grows ↦ rw grows refl
  | inr stays ↦ rw stays refl
]

pub hint-grow_file :
    (pm : PageManager) (p : ℕ) → (grow_file pm p).next_free_hint ≡ pm.next_free_hint
unfolding grow_file write_page
hint-grow_file pm p = elim (Bool-cases (ltb (length pm.file) ((p + 1) * page_size))) [
  | inl short ↦ rw short refl
  | inr long ↦ rw long refl
]
