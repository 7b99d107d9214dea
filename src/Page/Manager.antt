-- ===== src/Page/Manager.antt =====
-- crates/cypherlite-storage/src/page/page_manager.rs: the database file, and the allocation of its
-- pages by the free space map on page 1.
pub mod Pages
pub mod Bits
pub mod Scan
pub mod Marks
pub mod Growth
pub mod Allocation
pub mod Opening
pub mod Ownership
use Prim.Native.Nat.{bit_and, bit_or}
use cypher_lite.Prelude.{
  ℕ, zero, suc, ◌+◌, ◌-◌, ◌*◌, ◌/◌, ◌%◌, ◌^◌, Bool, not, ◌||◌, Option, none, some, List, [], ◌∷◌,
  ◌++◌, ltb, leb, ◌==◌, if◌then◌else◌, length, get_elem?, set, drop, replicate, add_u32,
}
use cypher_lite.Core.{
  PageId, out_of_space, invalid_magic_number, unsupported_version, feature_incompatible,
}
use cypher_lite.Core.Result.{Result, ok, err, panic, ◌>>=◌}
use cypher_lite.File.{Bytes, write_at, read_at}
use cypher_lite.Wal.Format.{page_size}
use cypher_lite.Page.Header.{
  DatabaseHeader, header_magic, format_version, fsm_page_id, first_data_page,
  compiled_feature_flags, new_database_header, to_page, from_page,
}

pub record PageManager : Type 0 where
  pub file : Bytes
  pub header : DatabaseHeader
  pub next_free_hint : ℕ

unfoldable pub read_page : PageManager → PageId → Result Bytes
read_page pm page_id = read_at (page_id * page_size) page_size pm.file

unfoldable pub write_page : PageManager → PageId → Bytes → PageManager
write_page pm page_id bs = record pm { file = write_at (page_id * page_size) bs pm.file }

unfoldable pub flush_header : PageManager → PageManager
flush_header pm = write_page pm 0 (to_page pm.header)

-- `create_new` has made an empty file.
unfoldable pub create_database : PageManager
create_database = record {
  file =
      write_at page_size (3 ∷ replicate (page_size - 1) 0)
        (write_at 0 (to_page new_database_header) []);
  header = new_database_header;
  next_free_hint = first_data_page;
}

unfoldable pub migrate : DatabaseHeader → DatabaseHeader
migrate h =
    if ltb h.version format_version
    then record h {
      version_store_root_page = if ltb h.version 2 then 0 else h.version_store_root_page;
      version = format_version;
    }
    else h

unfoldable pub check_version : DatabaseHeader → Result DatabaseHeader
unfolding migrate
check_version h =
    if h.version == 0 || ltb format_version h.version
    then err (unsupported_version h.version format_version)
    else ok (migrate h)

-- `db_flags & !compiled` over 32 bits.
unfoldable pub missing_flags : ℕ → ℕ → ℕ
missing_flags db_flags compiled = bit_and db_flags (2 ^ 32 - 1 - compiled)

unfoldable pub check_features : DatabaseHeader → Result DatabaseHeader
check_features h =
    if missing_flags h.feature_flags compiled_feature_flags == 0
    then ok h
    else err (feature_incompatible h.feature_flags compiled_feature_flags)

unfoldable pub open_database : Bytes → Result PageManager
open_database file = do
  buf ← read_at 0 page_size file
  let header = from_page buf
  if header.magic == header_magic
      then (do
        migrated ← check_version header
        compatible ← check_features migrated
        ok (record { file = file; header = compatible; next_free_hint = first_data_page }))
      else err invalid_magic_number

-- Whether bit `k` of a byte is set: `byte & (1 << k) != 0`.
unfoldable pub bit_set : ℕ → ℕ → Bool
bit_set b k = not (bit_and b (2 ^ k) == 0)

-- The loop over the bits of one byte, from bit `k`, with `n` bits to go.
unfoldable pub first_clear : ℕ → ℕ → ℕ → Option ℕ
first_clear zero k b = none
first_clear (suc n) k b = let rest = first_clear n (k + 1) b in if bit_set b k then rest else some k

-- The loop over the bytes from byte `i`.
unfoldable pub scan_bytes : Bytes → ℕ → Option ℕ
scan_bytes [] i = none
scan_bytes (b ∷ bs) i =
    let rest = scan_bytes bs (i + 1) in
    if b == 0xFF then rest else elim (first_clear 8 0 b) [ none ↦ rest | some k ↦ some (i * 8 + k) ]

-- `fsm_buf[start_byte..]` panics behind the end.
unfoldable pub find_free_page : Bytes → ℕ → Result (Option ℕ)
find_free_page fsm start_byte =
    if leb start_byte (length fsm) then ok (scan_bytes (drop start_byte fsm) start_byte) else panic

-- `fsm_buf[page_id / 8] = f(fsm_buf[page_id / 8])`, which panics out of bounds.
unfoldable pub update_byte : (ℕ → ℕ) → Bytes → ℕ → Result Bytes
update_byte f fsm i = elim (get_elem? fsm i) [ none ↦ panic | some b ↦ ok (set fsm i (f b)) ]

-- The header is written when the page count grows.
unfoldable pub grow_page_count : PageManager → ℕ → PageManager
grow_page_count pm page_id =
    if leb pm.header.page_count page_id
    then flush_header (record pm { header = record pm.header { page_count = add_u32 page_id 1 } })
    else pm

-- A page behind the end of the file is written with zeros.
unfoldable pub grow_file : PageManager → ℕ → PageManager
grow_file pm page_id =
    if ltb (length pm.file) ((page_id + 1) * page_size)
    then write_page pm page_id (replicate page_size 0)
    else pm

unfoldable pub complete_allocation : PageManager → Bytes → ℕ → Result (PageId × PageManager)
complete_allocation pm fsm page_id = do
  fsm' ← update_byte (λ b. bit_or b (2 ^ (page_id % 8))) fsm (page_id / 8)
  let written = write_page pm fsm_page_id fsm'
  let hinted : PageManager = record written { next_free_hint = add_u32 page_id 1 }
  ok (page_id, grow_file (grow_page_count hinted page_id) page_id)

-- The second scan, from the start, if the first did not begin there.
unfoldable pub wrap_around : PageManager → Bytes → ℕ → Result (PageId × PageManager)
wrap_around pm fsm start_byte =
    if ltb 0 start_byte
    then (do
      found ← find_free_page fsm 0
      elim found [ some page_id ↦ complete_allocation pm fsm page_id | none ↦ err out_of_space ])
    else err out_of_space

unfoldable pub allocate_page : PageManager → Result (PageId × PageManager)
allocate_page pm = do
  fsm ← read_page pm fsm_page_id
  let start_byte = pm.next_free_hint / 8
  found ← find_free_page fsm start_byte
  elim found [
    | some page_id ↦ complete_allocation pm fsm page_id
    | none ↦ wrap_around pm fsm start_byte
  ]

unfoldable pub deallocate_page : PageManager → PageId → Result PageManager
deallocate_page pm page_id = do
  fsm ← read_page pm fsm_page_id
  fsm' ← update_byte (λ b. bit_and b (255 - 2 ^ (page_id % 8))) fsm (page_id / 8)
  let written = write_page pm fsm_page_id fsm'
  ok (record written {
    next_free_hint = if ltb page_id pm.next_free_hint then page_id else pm.next_free_hint;
  })
