-- ===== src/Page/Manager/Ownership.antt =====
-- Pages that are handed out, and not given back, are never handed out again.
use cypher_lite.Prelude.{
  ℕ, ◌≤◌, ◌<◌, ◌≡◌, ◌≢◌, refl, sym, ap, ◌∙◌, subst, Bool, true, false, not, List, [], ◌∷◌, arith,
  length, retain, contains, ◌==◌, Bool-cases, ==_iff, ◌&&◌, inl, inr,
}
use cypher_lite.Core.Result.{Result, ok, err, panic}
use cypher_lite.File.{Bytes}
use cypher_lite.Wal.Format.{page_size}
use cypher_lite.Page.Header.{fsm_page_id}
use cypher_lite.Page.Manager.{
  PageManager, create_database, read_page, write_page, allocate_page, deallocate_page, bit_set,
}
use cypher_lite.Page.Manager.Pages.{HasPage, HasPage-write_page, read_page-write_ne}
use cypher_lite.Page.Manager.Scan.{used, bit_at}
use cypher_lite.Page.Manager.Allocation.{
  Maps, Updates, map_pages, allocate_page-Allocated, deallocate_page-Updates,
}
use cypher_lite.Page.Manager.Opening.{new_map, create_database-Maps}

-- The pages that callers hold: those that were allocated and not given back. A caller writes and
-- gives back only pages that it holds.
pub data Owned : PageManager → Bytes → List ℕ → Type 0 where
  starts : Owned create_database new_map []
  allocates :
      {pm pm' : PageManager} {fsm fsm' : Bytes} {held : List ℕ} (p : ℕ)
      → Owned pm fsm held
      → allocate_page pm ≡ ok (p, pm')
      → read_page pm' fsm_page_id ≡ ok fsm'
      → Owned pm' fsm' (p ∷ held)
  gives_back :
      {pm pm' : PageManager} {fsm fsm' : Bytes} {held : List ℕ} (p : ℕ)
      → Owned pm fsm held
      → contains held p ≡ true
      → deallocate_page pm p ≡ ok pm'
      → read_page pm' fsm_page_id ≡ ok fsm'
      → Owned pm' fsm' (retain (λ q. not (q == p)) held)
  fills :
      {pm : PageManager} {fsm : Bytes} {held : List ℕ} (p : ℕ) (bs : Bytes)
      → Owned pm fsm held
      → contains held p ≡ true
      → length bs ≡ page_size
      → Owned (write_page pm p bs) fsm held

-- A page that is held is a data page of the file, in use by the map.
pub record IsHeld (pm : PageManager) (fsm : Bytes) (p : ℕ) : Type 0 where
  pub data_page : 2 ≤ p
  pub in_map : p < map_pages
  pub in_use : used fsm p ≡ true
  pub has : HasPage pm p

pub record IsSound (pm : PageManager) (fsm : Bytes) (held : List ℕ) : Type 0 where
  pub maps : Maps pm fsm
  pub hint : pm.next_free_hint ≤ map_pages
  pub header_in_use : used fsm 0 ≡ true
  pub map_in_use : used fsm 1 ≡ true
  pub all_held : (p : ℕ) → contains held p ≡ true → IsHeld pm fsm p

-- What an allocation that succeeds does.
abbrev Allocates : PageManager → Bytes → Result (ℕ × PageManager) → Type 0
Allocates pm fsm (ok (p, pm')) =
    (p < map_pages) × (used fsm p ≡ false) × HasPage pm' p × Updates true p pm fsm pm'
Allocates pm fsm (err e) = Unit
Allocates pm fsm panic = Unit

allocate_page-Allocates :
    (pm pm' : PageManager) (fsm : Bytes) (p : ℕ)
    → Maps pm fsm
    → pm.next_free_hint ≤ map_pages
    → allocate_page pm ≡ ok (p, pm')
    → Allocates pm fsm (ok (p, pm'))
allocate_page-Allocates pm pm' fsm p maps hint e = elim (allocate_page-Allocated pm fsm maps hint) [
  | inr (failed, full) ↦ let clash = sym failed ∙ e in cc
  | inl (q, pm2, done, lt, free, has, u) ↦
      subst (Allocates pm fsm) (sym done ∙ e) (lt, free, has, u)
]

-- A page that is held stays so when another one changes its use.
IsHeld-Updates :
    (mark : Bool) (p : ℕ) (pm pm' : PageManager) (fsm : Bytes) (q : ℕ)
    (u : Updates mark p pm fsm pm')
    → (p == q) ≡ false
    → IsHeld pm fsm q
    → IsHeld pm' u.new q
IsHeld-Updates mark p pm pm' fsm q u other h =
    let data_page = h.data_page in
    record {
      data_page = h.data_page;
      in_map = h.in_map;
      in_use = u.changes.use_of q ∙ (rw other h.in_use);
      has = (u.others q (λ e. absurd (omega arith)) (λ e. absurd (omega arith)) h.has).0;
    }

allocates-IsSound :
    (pm pm' : PageManager) (fsm : Bytes) (held : List ℕ) (p : ℕ)
    → IsSound pm fsm held
    → used fsm p ≡ false
    → p < map_pages
    → HasPage pm' p
    → (u : Updates true p pm fsm pm') → IsSound pm' u.new (p ∷ held)
allocates-IsSound pm pm' fsm held p good free lt has u =
    let zero_used : used fsm 0 ≡ true = good.header_in_use in
    let one_used : used fsm 1 ≡ true = good.map_in_use in
    let not_zero : p ≢ 0 = λ e. let clash = sym (ap (used fsm) e ∙ zero_used) ∙ free in cc in
    let not_one : p ≢ 1 = λ e. let clash = sym (ap (used fsm) e ∙ one_used) ∙ free in cc in
    let new_held : IsHeld pm' u.new p = record {
      data_page = ground arith;
      in_map = lt;
      in_use = ground (arith, u.changes.use_of p);
      has = has;
    } in
    record {
      maps = u.maps;
      hint = u.hint;
      header_in_use = ground (arith, u.changes.use_of 0);
      map_in_use = ground (arith, u.changes.use_of 1);
      all_held = λ q h. elim (Bool-cases (p == q)) [
        | inl same ↦ subst (IsHeld pm' u.new) ((==_iff p q).0 same) new_held
        | inr other ↦ IsHeld-Updates true p pm pm' fsm q u other (good.all_held q (ground arith))
      ];
    }

contains-retain :
    (p : ℕ) (held : List ℕ) (q : ℕ)
    → contains (retain (λ x. not (x == p)) held) q ≡ (not (p == q) && contains held q)
contains-retain p [] q = ground arith
contains-retain p (x ∷ held) q = ground (arith, contains-retain p held q)

gives_back-IsSound :
    (pm pm' : PageManager) (fsm : Bytes) (held : List ℕ) (p : ℕ)
    → IsSound pm fsm held
    → 2 ≤ p
    → (u : Updates false p pm fsm pm') → IsSound pm' u.new (retain (λ q. not (q == p)) held)
gives_back-IsSound pm pm' fsm held p good above u =
    let zero_used : used fsm 0 ≡ true = good.header_in_use in
    let one_used : used fsm 1 ≡ true = good.map_in_use in
    record {
      maps = u.maps;
      hint = u.hint;
      header_in_use = ground (arith, u.changes.use_of 0);
      map_in_use = ground (arith, u.changes.use_of 1);
      all_held = λ q h.
          let kept = sym (contains-retain p held q) ∙ h in
          IsHeld-Updates false p pm pm' fsm q u (ground arith) (good.all_held q (ground arith));
    }

-- The map that is read is the map that was written.
IsSound-read :
    (pm : PageManager) (fsm fsm' : Bytes) (held : List ℕ)
    → IsSound pm fsm held
    → read_page pm fsm_page_id ≡ ok fsm'
    → IsSound pm fsm' held
IsSound-read pm fsm fsm' held good read =
    let same : fsm ≡ fsm' = let both = sym good.maps.read ∙ read in cc in
    subst (λ f. IsSound pm f held) same good

fills-IsSound :
    (pm : PageManager) (fsm : Bytes) (held : List ℕ) (p : ℕ) (bs : Bytes)
    → IsSound pm fsm held
    → 2 ≤ p
    → length bs ≡ page_size
    → IsSound (write_page pm p bs) fsm held
fills-IsSound pm fsm held p bs good above size = record {
  maps = record {
    has = HasPage-write_page pm p 1 bs good.maps.has;
    read =
        read_page-write_ne pm p 1 bs size (λ e. absurd (omega arith)) good.maps.has
        ∙ good.maps.read;
    size = good.maps.size;
    bytes = good.maps.bytes;
  };
  hint = unfold write_page in good.hint;
  header_in_use = good.header_in_use;
  map_in_use = good.map_in_use;
  all_held = λ q h.
      let old = good.all_held q h in
      record {
        data_page = old.data_page;
        in_map = old.in_map;
        in_use = old.in_use;
        has = HasPage-write_page pm p q bs old.has;
      };
}

Owned-IsSound :
    {pm : PageManager} {fsm : Bytes} {held : List ℕ} → Owned pm fsm held → IsSound pm fsm held
Owned-IsSound starts = record {
  maps = create_database-Maps;
  hint = unfold create_database in omega arith;
  header_in_use = unfold used bit_at new_map bit_set in refl;
  map_in_use = unfold used bit_at new_map bit_set in refl;
  all_held = λ p h. let no_page : false ≡ true = h in cc;
}
Owned-IsSound (allocates {pm} {pm'} {fsm} {fsm'} {held} p before e read) =
    let good = Owned-IsSound before in
    let (lt, free, has, u) = allocate_page-Allocates pm pm' fsm p good.maps good.hint e in
    IsSound-read pm' u.new fsm' (p ∷ held) (allocates-IsSound pm pm' fsm held p good free lt has u)
      read
Owned-IsSound (gives_back {pm} {pm'} {fsm} {fsm'} {held} p before mine e read) =
    let good = Owned-IsSound before in
    let h = good.all_held p mine in
    let (pm2, done, hint, u) = deallocate_page-Updates pm fsm p good.maps good.hint h.in_map in
    let same : pm2 ≡ pm' = let both = sym done ∙ e in cc in
    IsSound-read pm' u.new fsm' (retain (λ q. not (q == p)) held)
      (subst (λ m. IsSound m u.new (retain (λ q. not (q == p)) held)) same
        (gives_back-IsSound pm pm2 fsm held p good h.data_page u))
      read
Owned-IsSound (fills {pm} {fsm} {held} p bs before mine size) =
    let good = Owned-IsSound before in
    fills-IsSound pm fsm held p bs good (good.all_held p mine).data_page size

-- However pages were allocated, filled and given back since the database was created, a page that an
-- allocation returns is a data page that no caller holds, and the file has it.
pub allocate_page-unheld :
    {pm : PageManager} {fsm : Bytes} {held : List ℕ} (p : ℕ) (pm' : PageManager)
    → Owned pm fsm held
    → allocate_page pm ≡ ok (p, pm')
    → (contains held p ≡ false) × (2 ≤ p) × HasPage pm' p
allocate_page-unheld {pm} {fsm} {held} p pm' owned e =
    let good = Owned-IsSound owned in
    let (lt, free, has, u) = allocate_page-Allocates pm pm' fsm p good.maps good.hint e in
    let unheld : contains held p ≡ false = elim (Bool-cases (contains held p)) [
      | inl mine ↦ let clash = sym free ∙ (good.all_held p mine).in_use in cc
      | inr other ↦ other
    ] in
    let after =
      (allocates-IsSound pm pm' fsm held p good free lt has u).all_held p (ground arith) in
    (unheld, after.data_page, has)
