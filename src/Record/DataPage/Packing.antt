-- ===== src/Record/DataPage/Packing.antt =====
-- Packing a record into a data page, and finding the records of a page (page/record_serialization.rs).
use cypher_lite.Prelude.{
  ℕ, ◌+◌, ◌-◌, ◌%◌, ◌^◌, ◌<◌, ◌≤◌, ◌≡◌, refl, sym, ap, ◌∙◌, inl, inr, true, false, List, [], ◌∷◌,
  ◌++◌, append_assoc, append-nil, arith, length, drop, ltb, if◌then◌else◌, length-append, drop-drop,
  Bool-cases,
}
use cypher_lite.File.{Bytes}
use cypher_lite.Wal.Format.{page_size}
use cypher_lite.Record.Fields.{put_count}
use cypher_lite.Record.DataPage.{
  DataPageHeader, header_bytes, copy_at, write_to, remaining_space, pack_record_into_page,
}
use cypher_lite.Record.DataPage.Layout.{
  entry, entries, header_of, data_page, length-entry, length-entries, entries-append,
  length-data_page, read_from-data_page, copy_at-append,
}

-- The two writes: the entry stands where the free bytes began.
written-append :
    (pre b free : Bytes)
    → copy_at (length pre + 2) b (copy_at (length pre) (put_count (length b)) (pre ++ free))
      ≡ pre ++ (entry b ++ drop (2 + length b) free)
written-append pre b free =
    let len = put_count (length b) in
    ap (λ p. copy_at (length pre + 2) b p)
      (copy_at-append pre len free ∙ sym (append_assoc pre len (drop 2 free)))
    ∙ ap (λ k. copy_at k b ((pre ++ len) ++ drop 2 free)) (omega (arith, length-append pre len))
    ∙ copy_at-append (pre ++ len) b (drop 2 free)
    ∙ append_assoc pre len (b ++ drop (length b) (drop 2 free))
    ∙ ap (λ d. pre ++ (len ++ (b ++ d))) (drop-drop (length b) 2 free)

-- The header over it.
write_to-entry :
    (h g : DataPageHeader) (rs : List Bytes) (b rest : Bytes)
    → write_to g (header_bytes h ++ (entries rs ++ (entry b ++ rest)))
      ≡ header_bytes g ++ (entries (rs ++ (b ∷ [])) ++ rest)
unfolding write_to
write_to-entry h g rs b rest =
    ap (λ r. header_bytes g ++ r)
      (sym (append_assoc (entries rs) (entry b) rest)
        ∙ ap (λ e. e ++ rest)
            (ap (λ e. entries rs ++ e) (sym (append-nil (entry b)))
              ∙ sym (entries-append rs (b ∷ []))))

-- The header that `pack_record_into_page` writes.
abbrev updated : DataPageHeader → ℕ → DataPageHeader
updated h size = record (h) {
  record_count = (h.record_count + 1) % 2 ^ 16;
  free_offset = (h.free_offset + (2 + size) % 2 ^ 16) % 2 ^ 16;
}

module _ (t n : ℕ) (rs : List Bytes) (free : Bytes) where
  updated-header_of :
      (b : Bytes)
      → 12 + length (entries rs) + (2 + length b) ≤ page_size
      → updated (header_of t n rs) (length b) ≡ header_of t n (rs ++ (b ∷ []))
  updated-header_of b h =
      let all : length (entries (rs ++ (b ∷ []))) ≡ length (entries rs) + (2 + length b) =
        ap length (entries-append rs (b ∷ []) ∙ ap (λ e. entries rs ++ e) (append-nil (entry b)))
        ∙ length-append (entries rs) (entry b)
        ∙ ap (λ k. length (entries rs) + k) (length-entry b) in
      let count : (length rs + 1) % 2 ^ 16 ≡ length (rs ++ (b ∷ [])) =
        omega (arith, length-append rs (b ∷ []), length-entries rs) in
      let offset : (12 + length (entries rs) + (2 + length b) % 2 ^ 16) % 2 ^ 16
          ≡ 12 + length (entries (rs ++ (b ∷ []))) =
        omega (arith, all) in
      λ i. record { page_type = t; record_count = count i; free_offset = offset i; next_page = n }

  packed :
      (b : Bytes)
      → 12 + length (entries rs) + (2 + length b) ≤ page_size
      → write_to (updated (header_of t n rs) (length b)) (
          copy_at
            (12 + length (entries rs) + 2)
            b
            (copy_at (12 + length (entries rs)) (put_count (length b)) (data_page t n rs free)))
        ≡ data_page t n (rs ++ (b ∷ [])) (drop (2 + length b) free)
  packed b h =
      let pre = header_bytes (header_of t n rs) ++ entries rs in
      let g = updated (header_of t n rs) (length b) in
      let start : 12 + length (entries rs) ≡ length pre = omega arith in
      ap (λ o. write_to g (copy_at (o + 2) b (copy_at o (put_count (length b)) (pre ++ free))))
        start
      ∙ ap (write_to g) (written-append pre b free)
      ∙ write_to-entry (header_of t n rs) g rs b (drop (2 + length b) free)
      ∙ ap (λ g. header_bytes g ++ (entries (rs ++ (b ∷ [])) ++ drop (2 + length b) free))
          (updated-header_of b h)

  -- On a page of 4096 bytes that holds some records, packing refuses a record that does not fit the free
  -- bytes with its length, and then the page is as it was; otherwise the page holds the record behind the others.
  pub pack_record_into_page-data_page :
      (b : Bytes)
      → length (data_page t n rs free) ≡ page_size
      → n < 2 ^ 32
      → pack_record_into_page (data_page t n rs free) b ≡ (
          if ltb (length free) (2 + length b)
          then (false, data_page t n rs free)
          else (true, data_page t n (rs ++ (b ∷ [])) (drop (2 + length b) free)))
  unfolding pack_record_into_page remaining_space
  pack_record_into_page-data_page b h k =
      let space : page_size - (12 + length (entries rs)) ≡ length free =
        omega (arith, length-data_page t n rs free) in
      rw (read_from-data_page t n rs free h k, space)
        (elim (Bool-cases (ltb (length free) (2 + length b))) [
          | inl e ↦ rw e refl
          | inr e ↦
              rw e (ap (λ p. (true, p)) (packed b (ground (arith, length-data_page t n rs free))))
        ])
