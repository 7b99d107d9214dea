-- ===== src/Page/Manager/Pages.antt =====
-- Reading and writing whole pages.
use cypher_lite.Prelude.{ℕ, ◌+◌, ◌*◌, ◌≤◌, ◌≡◌, ◌≢◌, inl, inr, arith, length}
use native.Mathlib.Decide.{dec_lt}
use cypher_lite.Core.Result.{ok}
use cypher_lite.File.{Bytes}
use cypher_lite.File.Laws.{read_at-write_at, read_at-write_ne, length-write_at}
use cypher_lite.Wal.Format.{page_size}
use cypher_lite.Page.Manager.{PageManager, read_page, write_page}

-- The file holds the whole of page `p`.
abbrev pub HasPage : PageManager → ℕ → Type 0
HasPage pm p = p * page_size + page_size ≤ length pm.file

pub read_page-write_page :
    (pm : PageManager) (p : ℕ) (bs : Bytes)
    → length bs ≡ page_size
    → read_page (write_page pm p bs) p ≡ ok bs
unfolding read_page write_page
read_page-write_page pm p bs h = read_at-write_at (p * page_size) page_size bs pm.file h

pub read_page-write_ne :
    (pm : PageManager) (p q : ℕ) (bs : Bytes)
    → length bs ≡ page_size
    → p ≢ q
    → HasPage pm q
    → read_page (write_page pm p bs) q ≡ read_page pm q
unfolding read_page write_page
read_page-write_ne pm p q bs h ne has =
    read_at-write_ne (q * page_size) page_size (p * page_size) bs pm.file has
      (elim (dec_lt q p) [ yes below ↦ inl (omega arith) | no above ↦ inr (omega arith) ])

pub HasPage-write_page :
    (pm : PageManager) (p q : ℕ) (bs : Bytes) → HasPage pm q → HasPage (write_page pm p bs) q
unfolding write_page
HasPage-write_page pm p q bs has = omega (arith, length-write_at (p * page_size) bs pm.file)

pub HasPage-write_self :
    (pm : PageManager) (p : ℕ) (bs : Bytes) → length bs ≡ page_size → HasPage (write_page pm p bs) p
unfolding write_page
HasPage-write_self pm p bs h = omega (arith, length-write_at (p * page_size) bs pm.file)
