-- ===== src/Record/DataPage/Layout.antt =====
-- A data page seen as the list of its records (page/record_serialization.rs).
use cypher_lite.Prelude.{
  ℕ, ◌+◌, ◌^◌, ◌<◌, ◌≤◌, ◌≡◌, refl, sym, ap, ◌∙◌, List, [], ◌∷◌, ◌++◌, append_assoc, arith, length,
  drop, length-append, take-append, drop-append_ge,
}
use cypher_lite.File.{Bytes}
use cypher_lite.Endian.{from_le-to_le_16, from_le-to_le_32}
use cypher_lite.Wal.Format.{page_size}
use cypher_lite.Record.Fields.{concat_map, put_count}
use cypher_lite.Record.DataPage.{DataPageHeader, header_bytes, read_from, copy_at}

-- A record behind its length.
abbrev pub entry : Bytes → Bytes
entry b = put_count (length b) ++ b

abbrev pub entries : List Bytes → Bytes
entries = concat_map entry

abbrev pub header_of : ℕ → ℕ → List Bytes → DataPageHeader
header_of page_type next rs = record {
  page_type = page_type;
  record_count = length rs;
  free_offset = 12 + length (entries rs);
  next_page = next;
}

-- The page of some records: its header, the records in order, and the bytes that are free.
abbrev pub data_page : ℕ → ℕ → List Bytes → Bytes → Bytes
data_page page_type next rs free =
    header_bytes (header_of page_type next rs) ++ (entries rs ++ free)

pub length-entry : (b : Bytes) → length (entry b) ≡ 2 + length b
length-entry b = omega arith

pub length-entries : (rs : List Bytes) → length rs ≤ length (entries rs)
length-entries [] = omega arith
length-entries (b ∷ rs) =
    omega (arith, length-append (entry b) (entries rs), length-entry b, length-entries rs)

pub entries-append : (rs ss : List Bytes) → entries (rs ++ ss) ≡ entries rs ++ entries ss
entries-append [] ss = refl
entries-append (b ∷ rs) ss =
    ap (λ r. entry b ++ r) (entries-append rs ss)
    ∙ sym (append_assoc (entry b) (entries rs) (entries ss))

pub length-data_page :
    (t n : ℕ) (rs : List Bytes) (free : Bytes)
    → length (data_page t n rs free) ≡ 12 + length (entries rs) + length free
length-data_page t n rs free = omega (arith, length-append (entries rs) free)

-- The header is read back.
pub read_from-data_page :
    (t n : ℕ) (rs : List Bytes) (free : Bytes)
    → length (data_page t n rs free) ≡ page_size
    → n < 2 ^ 32
    → read_from (data_page t n rs free) ≡ header_of t n rs
unfolding read_from
read_from-data_page t n rs free h k =
    let size = length-data_page t n rs free in
    let count = length-entries rs in
    λ i. record {
      page_type = t;
      record_count = from_le-to_le_16 (length rs) (omega arith) i;
      free_offset = from_le-to_le_16 (12 + length (entries rs)) (omega arith) i;
      next_page = from_le-to_le_32 n k i;
    }

pub copy_at-append :
    (pre bs rest : Bytes)
    → copy_at (length pre) bs (pre ++ rest) ≡ pre ++ (bs ++ drop (length bs) rest)
unfolding copy_at
copy_at-append pre bs rest =
    rw
      (
        take-append (length pre) pre rest refl,
        drop-append_ge (length pre + length bs) pre rest (omega arith),
      )
      (ap (λ k. pre ++ (bs ++ drop k rest)) (omega arith))
