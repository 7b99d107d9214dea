-- ===== src/Wal/Reader.antt =====
-- crates/cypherlite-storage/src/wal/reader.rs: the latest frame of each page, as of a snapshot. The
-- hash map is kept in key order; the program sees its order only through `indexed_pages`.
pub mod Latest
pub mod Snapshot
use cypher_lite.Prelude.{
  ℕ, Bool, true, false, ◌||◌, Option, none, some, List, [], ltb, leb, ◌==◌, if◌then◌else◌, map,
}
use cypher_lite.Core.{PageId}
use cypher_lite.OrdMap
use cypher_lite.OrdMap.{OrdMap}
use cypher_lite.File.{Bytes}
use cypher_lite.Wal.Format.{WalFrame}

pub record WalReader : Type 0 where
  pub index : OrdMap WalFrame
  pub snapshot_frame : ℕ

abbrev pub new_reader : WalReader
new_reader = record { index = []; snapshot_frame = 0 }

abbrev pub with_snapshot : ℕ → WalReader
with_snapshot frame = record { index = []; snapshot_frame = frame }

-- `is_none_or(|existing| existing.frame_number < frame.frame_number)`
unfoldable pub supersedes : WalFrame → Option WalFrame → Bool
supersedes f none = true
supersedes f (some existing) = ltb existing.frame_number f.frame_number

unfoldable pub index_frame : WalReader → WalFrame → WalReader
unfolding supersedes
index_frame r f =
    if r.snapshot_frame == 0 || leb f.frame_number r.snapshot_frame
    then if supersedes f (OrdMap.get f.page_number r.index)
      then record r { index = OrdMap.insert f.page_number f r.index }
      else r
    else r

unfoldable pub read_page : WalReader → PageId → Option Bytes
read_page r page_id = elim (OrdMap.get page_id r.index) [ none ↦ none | some f ↦ some f.page_data ]

unfoldable pub contains_page : WalReader → PageId → Bool
contains_page r page_id = elim (OrdMap.get page_id r.index) [ none ↦ false | some f ↦ true ]

unfoldable pub page_count : WalReader → ℕ
page_count r = OrdMap.len r.index

unfoldable pub clear : WalReader → WalReader
clear r = record r { index = [] }

unfoldable pub set_snapshot_frame : WalReader → ℕ → WalReader
set_snapshot_frame r frame = record r { snapshot_frame = frame }

unfoldable pub indexed_pages : WalReader → List PageId
indexed_pages r = map (λ e. e.0) r.index
