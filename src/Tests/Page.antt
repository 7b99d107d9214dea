-- ===== src/Tests/Page.antt =====
-- The database file at concrete inputs.
use cypher_lite.Prelude.{some, [], ◌∷◌, contains, replicate, false, ◌≤◌, ◌≡◌, refl, inr, arith}
use cypher_lite.Core.{unsupported_version}
use cypher_lite.Core.Result.{ok, err}
use cypher_lite.Page.Header.{
  DatabaseHeader, new_database_header, first_data_page, to_page, from_page,
}
use cypher_lite.Page.Header.Codec.{Fits, migrated, from_page-to_page}
use cypher_lite.Page.Manager.{
  PageManager, flush_header, create_database, open_database, deallocate_page, missing_flags,
}
use cypher_lite.Page.Manager.Allocation.{
  Allocated, Updates, allocate_page-Allocated, deallocate_page-Updates,
}
use cypher_lite.Page.Manager.{
  write_page, allocate_page, complete_allocation, update_byte, find_free_page, scan_bytes,
  first_clear, bit_set, grow_file, grow_page_count,
}
use cypher_lite.Page.Manager.Pages.{HasPage}
use cypher_lite.Page.Manager.Ownership.{starts, allocate_page-unheld}
use cypher_lite.Page.Manager.Opening.{
  Accepted, current, new_map, create_database-Stores, create_database-Maps, open_database-Accepted,
  open_database-Refused, other_version, flush_header-Stores,
}

-- A header that version 4 of the program wrote.
abbrev version_four : DatabaseHeader
version_four = record new_database_header { version = 4 }

version_four-Fits : Fits version_four
unfolding new_database_header
version_four-Fits = omega arith

from_page-to_page_example : from_page (to_page version_four) ≡ migrated version_four
from_page-to_page_example = from_page-to_page version_four version_four-Fits

new_database_header-Fits : Fits new_database_header
unfolding new_database_header
new_database_header-Fits = omega arith

new_database_header-Accepted : Accepted new_database_header
unfolding new_database_header migrated missing_flags
new_database_header-Accepted = record {
  magic = refl;
  oldest = omega arith;
  newest = omega arith;
  features = refl;
}

open_database-Accepted_example :
    open_database create_database.file
    ≡ ok (record {
      file = create_database.file;
      header = current new_database_header;
      next_free_hint = first_data_page;
    })
open_database-Accepted_example =
    open_database-Accepted create_database.file new_database_header create_database-Stores
      new_database_header-Fits new_database_header-Accepted

allocate_page-Allocated_example : Allocated create_database new_map
allocate_page-Allocated_example =
    allocate_page-Allocated create_database new_map create_database-Maps
      (unfold create_database in omega arith)

deallocate_page-Updates_example :
    (pm' : PageManager) × (deallocate_page create_database 5 ≡ ok pm')
    × (pm'.next_free_hint ≤ 5)
    × Updates false 5 create_database new_map pm'
deallocate_page-Updates_example =
    deallocate_page-Updates create_database new_map 5 create_database-Maps
      (unfold create_database in omega arith) (omega arith)

-- A file of a later program.
abbrev later : PageManager
later =
    flush_header (record create_database { header = record new_database_header { version = 8 } })

open_database-Refused_example : open_database later.file ≡ err (unsupported_version 8 7)
unfolding new_database_header
open_database-Refused_example =
    open_database-Refused later.file (record new_database_header { version = 8 })
      (unsupported_version 8 7)
      (flush_header-Stores
        (record create_database { header = record new_database_header { version = 8 } }))
      (omega arith) (other_version refl (inr (omega arith)))

-- The first allocation takes page 2.
first_scan : find_free_page new_map 0 ≡ ok (some 2)
unfolding find_free_page scan_bytes first_clear bit_set new_map
first_scan = ground arith

abbrev two_taken : PageManager
two_taken =
    grow_file
      (grow_page_count
        (record (write_page create_database 1 (7 ∷ replicate 4095 0)) { next_free_hint = 3 }) 2)
      2

first_allocation : allocate_page create_database ≡ ok (2, two_taken)
unfolding allocate_page complete_allocation update_byte create_database new_map
first_allocation = rw (allocate_page, create_database-Maps.read, first_scan) refl

allocate_page-unheld_example : (contains [] 2 ≡ false) × (2 ≤ 2) × HasPage two_taken 2
allocate_page-unheld_example = allocate_page-unheld 2 two_taken starts first_allocation
