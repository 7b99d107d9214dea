-- ===== src/Page/Manager/Allocation.antt =====
-- Allocation takes a free page into use and changes no other bit of the map; it fails only if every
-- page of the map is in use. Deallocation frees the page again.
use cypher_lite.Prelude.{
  ℕ, ◌+◌, ◌-◌, ◌*◌, ◌/◌, ◌≤◌, ◌<◌, ◌≡◌, ◌≢◌, refl, sym, ap, ◌∙◌, Bool, true, false, none, some,
  arith, length, drop, length-drop, add_u32, ltb, if◌then◌else◌, ◌⊎◌, inl, inr, Option-cases,
  Bool-cases,
}
use cypher_lite.Core.{out_of_space}
use cypher_lite.Core.Result.{ok, err}
use cypher_lite.File.{Bytes}
use cypher_lite.Endian.{AreBytes}
use cypher_lite.Wal.Format.{page_size}
use cypher_lite.Page.Header.{fsm_page_id}
use cypher_lite.Page.Manager.{
  PageManager, read_page, write_page, find_free_page, scan_bytes, grow_page_count, grow_file,
  complete_allocation, wrap_around, allocate_page, deallocate_page,
}
use cypher_lite.Page.Manager.Pages.{HasPage, read_page-write_page, HasPage-write_page}
use cypher_lite.Page.Manager.Scan.{used, scan_bytes-some, scan_bytes-none, used-drop}
use cypher_lite.Page.Manager.Marks.{Changes, update_byte-mark, update_byte-clear}
use cypher_lite.Page.Manager.Growth.{
  Keeps, write_page-Keeps, grow_page_count-Keeps, grow_file-Keeps, grow_file-HasPage,
  hint-grow_page_count, hint-grow_file,
}

-- `pm` has the free space map `fsm`.
pub record Maps (pm : PageManager) (fsm : Bytes) : Type 0 where
  pub has : HasPage pm fsm_page_id
  pub read : read_page pm fsm_page_id ≡ ok fsm
  pub size : length fsm ≡ page_size
  pub bytes : AreBytes fsm

-- A scan from byte `s`.
find_free_page-cases :
    (fsm : Bytes) (s : ℕ)
    → s ≤ length fsm
    → ((find_free_page fsm s ≡ ok none)
        × ((q : ℕ) → s * 8 ≤ q → q < length fsm * 8 → used fsm q ≡ true))
      ⊎ ((p : ℕ) × (find_free_page fsm s ≡ ok (some p))
          × (p < length fsm * 8)
          × (used fsm p ≡ false))
find_free_page-cases fsm s le =
    let scan : find_free_page fsm s ≡ ok (scan_bytes (drop s fsm) s) =
      unfold find_free_page in ground arith in
    let size = length-drop s fsm in
    elim (Option-cases (scan_bytes (drop s fsm) s)) [
      | inl nothing ↦ inl (
        scan ∙ ap ok nothing,
        λ q lo hi.
            let at : s * 8 + (q - s * 8) ≡ q = omega arith in
            ap (used fsm) (sym at)
            ∙ (sym (used-drop s fsm (q - s * 8))
                ∙ scan_bytes-none (drop s fsm) s (q - s * 8) nothing (omega arith)),
      )
      | inr (p, found) ↦
          let (q, at, lt, free) = scan_bytes-some (drop s fsm) s p found in
          inr (
            p,
            scan ∙ ap ok found,
            omega arith,
            ap (used fsm) at ∙ (sym (used-drop s fsm q) ∙ free),
          )
    ]

-- The pages that the map covers.
abbrev pub map_pages : ℕ
map_pages = 32768

-- Page `p` goes into use or out of it, the hint stays in the map, and no page but those of the header and the map changes.
pub record Updates (mark : Bool) (p : ℕ) (pm : PageManager) (fsm : Bytes) (pm' : PageManager)
    : Type 0 where
  pub new : Bytes
  pub maps : Maps pm' new
  pub changes : Changes mark p fsm new
  pub hint : pm'.next_free_hint ≤ map_pages
  pub others : (q : ℕ) → q ≢ 0 → q ≢ 1 → HasPage pm q → Keeps pm pm' q

-- Page 1 with the new map, and a new hint.
abbrev written_map : PageManager → Bytes → ℕ → PageManager
written_map pm new hint = record (write_page pm fsm_page_id new) { next_free_hint = hint }

write_map-Updates :
    (mark : Bool) (p : ℕ) (pm : PageManager) (fsm new : Bytes) (hint : ℕ)
    → Maps pm fsm
    → Changes mark p fsm new
    → hint ≤ map_pages
    → Updates mark p pm fsm (written_map pm new hint)
unfolding read_page
write_map-Updates mark p pm fsm new hint maps changes in_map =
    let size : length new ≡ page_size = changes.size ∙ maps.size in
    record {
      new = new;
      maps = record {
        has = HasPage-write_page pm 1 1 new maps.has;
        read = read_page-write_page pm 1 new size;
        size = size;
        bytes = changes.bytes;
      };
      changes = changes;
      hint = in_map;
      others = λ q ne0 ne1 has. write_page-Keeps pm 1 q new size (λ e. ne1 (sym e)) has;
    }

grow-Updates :
    (p : ℕ) (pm : PageManager) (fsm : Bytes) (mid : PageManager)
    → Updates true p pm fsm mid
    → Updates true p pm fsm (grow_file (grow_page_count mid p) p)
grow-Updates p pm fsm mid u =
    let keeps : (q : ℕ)
        → q ≢ 0
        → HasPage mid q
        → Keeps mid (grow_file (grow_page_count mid p) p) q =
      λ q ne has.
        let one = grow_page_count-Keeps mid p q ne has in
        let two = grow_file-Keeps (grow_page_count mid p) p q one.0 in (two.0, two.1 ∙ one.1) in
    let map = keeps 1 (λ e. absurd (omega arith)) u.maps.has in
    record {
      new = u.new;
      maps = record {
        has = map.0;
        read = map.1 ∙ u.maps.read;
        size = u.maps.size;
        bytes = u.maps.bytes;
      };
      changes = u.changes;
      hint =
          omega
            (arith, u.hint, hint-grow_file (grow_page_count mid p) p, hint-grow_page_count mid p);
      others = λ q ne0 ne1 has.
          let one = u.others q ne0 ne1 has in let two = keeps q ne0 one.0 in (two.0, two.1 ∙ one.1);
    }

complete_allocation-Updates :
    (pm : PageManager) (fsm : Bytes) (p : ℕ)
    → Maps pm fsm
    → p < 32768
    → (pm' : PageManager) × (complete_allocation pm fsm p ≡ ok (p, pm'))
      × HasPage pm' p
      × Updates true p pm fsm pm'
complete_allocation-Updates pm fsm p maps lt =
    let size = maps.size in
    let (new, marked, changes) = update_byte-mark fsm p maps.bytes (omega arith) in
    let mid = written_map pm new (add_u32 p 1) in
    (
      grow_file (grow_page_count mid p) p,
      unfold complete_allocation in rw marked,
      grow_file-HasPage (grow_page_count mid p) p,
      grow-Updates p pm fsm mid (write_map-Updates true p pm fsm new _ maps changes (omega arith)),
    )

-- An allocation ends in one of two ways.
abbrev pub Allocated : PageManager → Bytes → Type 0
Allocated pm fsm =
    ((p : ℕ) × (pm' : PageManager) × (allocate_page pm ≡ ok (p, pm'))
      × (p < map_pages)
      × (used fsm p ≡ false)
      × HasPage pm' p
      × Updates true p pm fsm pm')
    ⊎ ((allocate_page pm ≡ err out_of_space) × ((q : ℕ) → q < map_pages → used fsm q ≡ true))

allocate_found :
    (pm : PageManager) (fsm : Bytes) (p : ℕ)
    → Maps pm fsm
    → p < map_pages
    → used fsm p ≡ false
    → allocate_page pm ≡ complete_allocation pm fsm p
    → Allocated pm fsm
allocate_found pm fsm p maps lt free e =
    let (pm', done, has, u) = complete_allocation-Updates pm fsm p maps lt in
    inl (p, pm', e ∙ done, lt, free, has, u)

allocate_wrapped :
    (pm : PageManager) (fsm : Bytes)
    → Maps pm fsm
    → ((q : ℕ) → pm.next_free_hint / 8 * 8 ≤ q → q < map_pages → used fsm q ≡ true)
    → allocate_page pm ≡ wrap_around pm fsm (pm.next_free_hint / 8)
    → Allocated pm fsm
unfolding wrap_around
allocate_wrapped pm fsm maps full e =
    let size = maps.size in
    elim (Bool-cases (ltb 0 (pm.next_free_hint / 8))) [
      | inr start ↦ inr (e ∙ (rw start refl), λ q lt. full q (ground arith) lt)
      | inl later ↦ elim (find_free_page-cases fsm 0 (omega arith)) [
        | inl (nothing, all_used) ↦
            inr (e ∙ (rw (later, nothing) refl), λ q lt. all_used q (omega arith) (omega arith))
        | inr (p, found, lt, free) ↦
            allocate_found pm fsm p maps (omega arith) free (e ∙ (rw (later, found) refl))
      ]
    ]

-- If the hint lies in the map or at its end, an allocation either takes a page that was free into
-- use and makes the file hold it, or fails with every page of the map in use.
pub allocate_page-Allocated :
    (pm : PageManager) (fsm : Bytes)
    → Maps pm fsm
    → pm.next_free_hint ≤ map_pages
    → Allocated pm fsm
unfolding allocate_page
allocate_page-Allocated pm fsm maps hint =
    let size = maps.size in
    elim (find_free_page-cases fsm (pm.next_free_hint / 8) (omega arith)) [
      | inl (nothing, full) ↦
          allocate_wrapped pm fsm maps (λ q lo hi. full q lo (omega arith))
            (unfold allocate_page in rw (maps.read, nothing) refl)
      | inr (p, found, lt, free) ↦
          allocate_found pm fsm p maps (omega arith) free
            (unfold allocate_page in rw (maps.read, found) refl)
    ]

-- A page of the map that is given back is free, and nothing else changes but the map.
pub deallocate_page-Updates :
    (pm : PageManager) (fsm : Bytes) (p : ℕ)
    → Maps pm fsm
    → pm.next_free_hint ≤ map_pages
    → p < map_pages
    → (pm' : PageManager) × (deallocate_page pm p ≡ ok pm')
      × (pm'.next_free_hint ≤ p)
      × Updates false p pm fsm pm'
unfolding deallocate_page
deallocate_page-Updates pm fsm p maps hint lt =
    let size = maps.size in
    let (new, cleared, changes) = update_byte-clear fsm p maps.bytes (omega arith) in
    (
      written_map pm new (if ltb p pm.next_free_hint then p else pm.next_free_hint),
      rw (maps.read, cleared) refl,
      ground arith,
      write_map-Updates false p pm fsm new _ maps changes (ground arith),
    )
