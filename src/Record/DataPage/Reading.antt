-- ===== src/Record/DataPage/Reading.antt =====
-- The records that `read_records_from_page` finds (page/record_serialization.rs).
use cypher_lite.Prelude.{
  ℕ, ◌+◌, ◌^◌, ◌<◌, ◌≤◌, ◌≡◌, refl, sym, ap, ◌∙◌, false, List, [], ◌∷◌, ◌++◌, append_assoc, arith,
  length, take, drop, map, ltb, length-append, take-append, drop-append, drop-drop,
}
use cypher_lite.File.{Bytes}
use cypher_lite.Endian.{to_le, from_le, from_le-to_le_16}
use cypher_lite.Wal.Format.{page_size}
use cypher_lite.Record.DataPage.{header_bytes, records_from, read_records_from_page}
use cypher_lite.Record.DataPage.Layout.{
  entry, entries, header_of, data_page, length-entry, read_from-data_page,
}

-- The bytes at an offset and a length.
abbrev pub slice : Bytes → ℕ × ℕ → Bytes
slice page p = take (p.1) (drop (p.0) page)

-- Behind the records before it, a record's length is read.
record_len-entry :
    (pre b rest : Bytes)
    → length b < 2 ^ 16
    → from_le (take 2 (drop (length pre) (pre ++ (entry b ++ rest)))) ≡ length b
record_len-entry pre b rest h =
    ap (λ d. from_le (take 2 d)) (drop-append (length pre) pre (entry b ++ rest) refl)
    ∙ ap (λ n. from_le (to_le 2 n)) (omega arith)
    ∙ from_le-to_le_16 (length b) h

slice-entry : (pre b rest : Bytes) → slice (pre ++ (entry b ++ rest)) (length pre + 2, length b) ≡ b
slice-entry pre b rest =
    ap (take (length b)) (
      sym (drop-drop 2 (length pre) (pre ++ (entry b ++ rest)))
      ∙ ap (drop 2) (drop-append (length pre) pre (entry b ++ rest) refl))
    ∙ take-append (length b) b rest refl

map-records_from :
    (page pre : Bytes) (rs : List Bytes) (free : Bytes)
    → page ≡ pre ++ (entries rs ++ free)
    → length page ≡ page_size
    → map (slice page) (records_from page (length rs) (length pre)) ≡ rs
unfolding records_from
map-records_from page pre [] free e h = refl
map-records_from page pre (b ∷ rs) free e h =
    let at : page ≡ pre ++ (entry b ++ (entries rs ++ free)) =
      e ∙ ap (λ r. pre ++ r) (append_assoc (entry b) (entries rs) free) in
    let size : length pre + 2 + length b ≤ page_size = omega (
      arith,
      ap length at,
      length-append pre (entry b ++ (entries rs ++ free)),
      length-entry b,
      length-append (entry b) (entries rs ++ free),
    ) in
    let len : from_le (take 2 (drop (length pre) page)) ≡ length b =
      ap (λ p. from_le (take 2 (drop (length pre) p))) at
      ∙ record_len-entry pre b (entries rs ++ free) (omega arith) in
    let here : slice page (length pre + 2, length b) ≡ b =
      ap (λ p. slice p (length pre + 2, length b)) at ∙ slice-entry pre b (entries rs ++ free) in
    let later : map (slice page) (records_from page (length rs) (length pre + 2 + length b)) ≡ rs =
      ap (λ k. map (slice page) (records_from page (length rs) k))
        (omega (arith, length-append pre (entry b), length-entry b))
      ∙ map-records_from page (pre ++ entry b) rs free
          (at ∙ sym (append_assoc pre (entry b) (entries rs ++ free))) h in
    let first : ltb page_size (length pre + 2) ≡ false = ground arith in
    let whole : ltb page_size (length pre + 2 + length b) ≡ false = ground arith in
    rw (len, first, whole) (λ i. here i ∷ later i)

-- On a page of 4096 bytes that holds some records, the offsets and lengths that `read_records_from_page`
-- finds are those of exactly these records, in the order in which they were packed.
pub read_records_from_page-data_page :
    (t n : ℕ) (rs : List Bytes) (free : Bytes)
    → length (data_page t n rs free) ≡ page_size
    → n < 2 ^ 32
    → map (slice (data_page t n rs free)) (read_records_from_page (data_page t n rs free)) ≡ rs
unfolding read_records_from_page
read_records_from_page-data_page t n rs free h k =
    rw (read_from-data_page t n rs free h k)
      (map-records_from (data_page t n rs free) (header_bytes (header_of t n rs)) rs free refl h)
