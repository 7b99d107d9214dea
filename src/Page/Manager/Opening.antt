-- ===== src/Page/Manager/Opening.antt =====
-- Opening a database file: what is accepted, what is kept of an older header, and what is refused.
use cypher_lite.Prelude.{
  ℕ, zero, suc, ◌-◌, ◌≤◌, ◌<◌, ◌≡◌, ◌≢◌, refl, ap, ◌∙◌, true, false, ◌||◌, arith, [], ◌∷◌, length,
  replicate, length-replicate, ltb, ◌==◌, if◌then◌else◌, Bool-cases, inl, inr, ◌⊎◌,
}
use cypher_lite.Core.{
  CypherLiteError, invalid_magic_number, unsupported_version, feature_incompatible,
}
use cypher_lite.Core.Result.{Result, ok, err, ◌>>=◌}
use cypher_lite.File.{Bytes, read_at, write_at}
use cypher_lite.File.Laws.{read_at-write_at, read_at-write_ne, length-write_at}
use cypher_lite.Endian.{AreBytes}
use cypher_lite.Wal.Format.{page_size}
use cypher_lite.Page.Header.{
  DatabaseHeader, header_magic, format_version, first_data_page, fsm_page_id,
  compiled_feature_flags, to_page, since, new_database_header,
}
use cypher_lite.Page.Header.Codec.{Fits, length-to_page, migrated, from_page-to_page}
use cypher_lite.Page.Manager.{
  PageManager, flush_header, write_page, read_page, migrate, check_version, check_features,
  missing_flags, open_database, create_database,
}
use cypher_lite.Page.Manager.Pages.{HasPage-write_self}
use cypher_lite.Page.Manager.Allocation.{Maps}

-- Page 0 of the file holds the header `h`.
unfoldable pub Stores : Bytes → DatabaseHeader → Type 0
Stores file h = read_at 0 page_size file ≡ ok (to_page h)

pub flush_header-Stores : (pm : PageManager) → Stores (flush_header pm).file pm.header
unfolding Stores flush_header write_page
flush_header-Stores pm =
    read_at-write_at 0 page_size (to_page pm.header) pm.file (length-to_page pm.header)

-- Opening is decided by the header alone.
open_database-read :
    (file : Bytes) (h : DatabaseHeader)
    → Stores file h
    → Fits h
    → open_database file ≡ (
        if (migrated h).magic == header_magic
        then (do
          m ← check_version (migrated h)
          compatible ← check_features m
          ok (record { file = file; header = compatible; next_free_hint = first_data_page }))
        else err invalid_magic_number)
unfolding open_database Stores
open_database-read file h stored fits = rw (stored, from_page-to_page h fits) refl

-- A header that this program accepts.
pub record Accepted (h : DatabaseHeader) : Type 0 where
  pub magic : h.magic ≡ header_magic
  pub oldest : 1 ≤ h.version
  pub newest : h.version ≤ format_version
  pub features : missing_flags (migrated h).feature_flags compiled_feature_flags ≡ 0

-- A header with the defaults of this program, and its version.
unfoldable pub current : DatabaseHeader → DatabaseHeader
unfolding migrated
current h = record (migrated h) { version = format_version }

migrate-migrated :
    (h : DatabaseHeader) → h.version ≤ format_version → migrate (migrated h) ≡ current h
unfolding migrate migrated current
migrate-migrated h le = elim (Bool-cases (ltb h.version format_version)) [
  | inl old ↦
      let same : (if ltb h.version 2 then 0 else since 2 h.version h.version_store_root_page 0)
          ≡ since 2 h.version h.version_store_root_page 0 =
        ground arith in
      rw old
        (λ i. record (migrated h) { version_store_root_page = same i; version = format_version })
  | inr new ↦
      let newest : h.version ≡ format_version = ground arith in
      rw new (λ i. record (migrated h) { version = newest i })
]

check_version-in_range :
    (h : DatabaseHeader)
    → 1 ≤ h.version
    → h.version ≤ format_version
    → check_version (migrated h) ≡ ok (current h)
unfolding check_version migrated
check_version-in_range h oldest newest =
    let in_range : (h.version == 0 || ltb format_version h.version) ≡ false = ground arith in
    rw in_range (ap ok (migrate-migrated h newest))

check_version-out_of_range :
    (h : DatabaseHeader)
    → (h.version ≡ 0) ⊎ (format_version < h.version)
    → check_version (migrated h) ≡ err (unsupported_version h.version format_version)
unfolding check_version migrated
check_version-out_of_range h out =
    let out_of_range : (h.version == 0 || ltb format_version h.version) ≡ true = ground arith in
    rw out_of_range refl

-- With the right magic number, the version and then the features decide.
open_database-checked :
    (file : Bytes) (h : DatabaseHeader)
    → Stores file h
    → Fits h
    → h.magic ≡ header_magic
    → {m : Result DatabaseHeader} → check_version (migrated h) ≡ m
    → open_database file ≡ (do
      header ← m
      compatible ← check_features header
      ok (record { file = file; header = compatible; next_free_hint = first_data_page }))
unfolding migrated
open_database-checked file h stored fits magic checked =
    let right : (h.magic == header_magic) ≡ true = ground arith in
    open_database-read file h stored fits ∙ (rw (right, checked) refl)

-- A header of versions 1 to 7 whose features are compiled in is accepted, with the defaults of this
-- program for the fields that its version lacks; the map of pages is searched from page 2 on.
pub open_database-Accepted :
    (file : Bytes) (h : DatabaseHeader)
    → Stores file h
    → Fits h
    → Accepted h
    → open_database file
      ≡ ok (record { file = file; header = current h; next_free_hint = first_data_page })
open_database-Accepted file h stored fits a =
    open_database-checked file h stored fits a.magic (check_version-in_range h a.oldest a.newest)
    ∙ (let none_missing = a.features in unfold check_features current in rw none_missing refl)

-- Why a header is refused.
pub data Refused (h : DatabaseHeader) : CypherLiteError → Type 0 where
  other_magic : h.magic ≢ header_magic → Refused h invalid_magic_number
  other_version :
      h.magic ≡ header_magic
      → (h.version ≡ 0) ⊎ (format_version < h.version)
      → Refused h (unsupported_version h.version format_version)
  other_features :
      h.magic ≡ header_magic
      → 1 ≤ h.version
      → h.version ≤ format_version
      → missing_flags (migrated h).feature_flags compiled_feature_flags ≢ 0
      → Refused h (feature_incompatible (migrated h).feature_flags compiled_feature_flags)

-- A header that is refused for a reason gives the error of that reason: the magic number is tested
-- first, then the version, then the features.
pub open_database-Refused :
    (file : Bytes) (h : DatabaseHeader) (e : CypherLiteError)
    → Stores file h
    → Fits h
    → Refused h e
    → open_database file ≡ err e
unfolding migrated
open_database-Refused file h _ stored fits (other_magic other) =
    let wrong : (h.magic == header_magic) ≡ false = ground arith in
    open_database-read file h stored fits ∙ (rw wrong refl)
open_database-Refused file h _ stored fits (other_version magic out) =
    open_database-checked file h stored fits magic (check_version-out_of_range h out)
open_database-Refused file h _ stored fits (other_features magic oldest newest missing) =
    let some_missing : (missing_flags (migrated h).feature_flags compiled_feature_flags == 0)
        ≡ false =
      ground arith in
    open_database-checked file h stored fits magic (check_version-in_range h oldest newest)
    ∙ (unfold check_features current in rw some_missing refl)

-- A new database holds its header and a map in which pages 0 and 1 are in use.
unfoldable pub new_map : Bytes
new_map = 3 ∷ replicate (page_size - 1) 0

AreBytes-replicate : (n : ℕ) → AreBytes (replicate n 0)
unfolding replicate
AreBytes-replicate zero = tt
AreBytes-replicate (suc n) = (omega arith, AreBytes-replicate n)

pub create_database-Stores : Stores create_database.file new_database_header
unfolding Stores create_database new_database_header new_map
create_database-Stores =
    let size = length-to_page new_database_header in
    read_at-write_ne 0 page_size page_size new_map (write_at 0 (to_page new_database_header) [])
      (omega (arith, length-write_at 0 (to_page new_database_header) [])) (inl (omega arith))
    ∙ read_at-write_at 0 page_size (to_page new_database_header) [] size

pub create_database-Maps : Maps create_database new_map
unfolding create_database new_map read_page write_page
create_database-Maps =
    let before = write_at 0 (to_page new_database_header) [] in
    let size : length (3 ∷ replicate (page_size - 1) 0) ≡ page_size =
      ap suc (length-replicate (page_size - 1) 0) in
    record {
      has =
          HasPage-write_self (record create_database { file = before }) fsm_page_id
            (3 ∷ replicate (page_size - 1) 0) size;
      read = read_at-write_at page_size page_size _ before size;
      size = size;
      bytes = (omega arith, AreBytes-replicate (page_size - 1));
    }
