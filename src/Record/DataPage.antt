-- ===== src/Record/DataPage.antt =====
-- Data pages (page/record_serialization.rs): a header of 12 bytes, then records, each behind its length.
-- Nothing overflows a `u16` on a page of 4096 bytes, but the wrap-around is written out. An index out of
-- bounds, which the source panics at, reads as what is there.
pub mod Layout
pub mod Packing
pub mod Reading
use cypher_lite.Prelude.{
  ℕ, zero, suc, ◌+◌, ◌-◌, ◌%◌, ◌^◌, Bool, true, false, Option, none, some, List, [], ◌∷◌, ◌++◌, ltb,
  if◌then◌else◌, length, get_elem?, take, drop,
}
use cypher_lite.File.{Bytes}
use cypher_lite.Endian.{to_le, from_le}
use cypher_lite.Wal.Format.{page_size}
use cypher_lite.Record.Fields.{put_count}

pub record DataPageHeader : Type 0 where
  pub page_type : ℕ
  pub record_count : ℕ
  pub free_offset : ℕ
  pub next_page : ℕ

abbrev pub header_size : ℕ
header_size = 12

unfoldable pub new_data_page_header : ℕ → DataPageHeader
new_data_page_header page_type = record {
  page_type = page_type;
  record_count = 0;
  free_offset = header_size;
  next_page = 0;
}

-- The bytes that `write_to` puts in place.
abbrev pub header_bytes : DataPageHeader → Bytes
header_bytes h =
    h.page_type
    ∷ (to_le 2 (h.record_count)
        ++ (to_le 2 (h.free_offset) ++ (to_le 4 (h.next_page) ++ (0 ∷ 0 ∷ 0 ∷ []))))

unfoldable pub write_to : DataPageHeader → Bytes → Bytes
write_to h buf = header_bytes h ++ drop header_size buf

abbrev byte_or_zero : Option ℕ → ℕ
byte_or_zero none = 0
byte_or_zero (some b) = b

unfoldable pub read_from : Bytes → DataPageHeader
read_from buf = record {
  page_type = byte_or_zero (get_elem? buf 0);
  record_count = from_le (take 2 (drop 1 buf));
  free_offset = from_le (take 2 (drop 3 buf));
  next_page = from_le (take 4 (drop 5 buf));
}

unfoldable pub remaining_space : DataPageHeader → ℕ
remaining_space h = page_size - h.free_offset

-- `page[offset..offset + bs.len()].copy_from_slice(bs)`
unfoldable pub copy_at : ℕ → Bytes → Bytes → Bytes
copy_at offset bs page = take offset page ++ (bs ++ drop (offset + length bs) page)

-- Whether the record was written, and the page.
unfoldable pub pack_record_into_page : Bytes → Bytes → Bool × Bytes
pack_record_into_page page record_bytes =
    let header = read_from page in
    let record_size = length record_bytes in
    let total_needed = 2 + record_size in
    let write_offset = header.free_offset in
    let written =
      copy_at (write_offset + 2) record_bytes (copy_at write_offset (put_count record_size) page) in
    let updated : DataPageHeader = record (header) {
      record_count = (header.record_count + 1) % 2 ^ 16;
      free_offset = (header.free_offset + total_needed % 2 ^ 16) % 2 ^ 16;
    } in
    if ltb (remaining_space header) total_needed
    then (false, page)
    else (true, write_to updated written)

-- The loop: the offset and the length of every record.
unfoldable pub records_from : Bytes → ℕ → ℕ → List (ℕ × ℕ)
records_from page zero offset = []
records_from page (suc n) offset =
    let record_len = from_le (take 2 (drop offset page)) in
    let start = offset + 2 in
    let rest = records_from page n (start + record_len) in
    if ltb page_size start
    then []
    else (if ltb page_size (start + record_len) then [] else (start, record_len) ∷ rest)

unfoldable pub read_records_from_page : Bytes → List (ℕ × ℕ)
read_records_from_page page = records_from page ((read_from page).record_count) header_size
