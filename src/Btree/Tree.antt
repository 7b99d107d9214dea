-- ===== src/Btree/Tree.antt =====
-- crates/cypherlite-storage/src/btree/mod.rs: `BTree`, a map with the number of its root page.
use cypher_lite.Prelude.{ℕ, Option, List, [], ◌&&◌, leb, ltb, if◌then◌else◌}
use cypher_lite.OrdMap.{OrdMap, get, entries_where}
use cypher_lite.OrdMap
use cypher_lite.Core.Result.{Result, ok, panic}

pub record BTree {ℓ} (V : Type ℓ) : Type ℓ where
  pub entries : OrdMap V
  pub root_page : ℕ

module _ {ℓ} {V : Type ℓ} where
  abbrev pub new_tree : BTree V
  new_tree = record { entries = []; root_page = 0 }

  abbrev pub with_root : ℕ → BTree V
  with_root root_page = record { entries = []; root_page = root_page }

  -- The old value comes first.
  abbrev pub insert : BTree V → ℕ → V → Option V × BTree V
  insert t key value = (get key t.entries, record t { entries = OrdMap.insert key value t.entries })

  abbrev pub search : BTree V → ℕ → Option V
  search t key = get key t.entries

  -- A write through `search_mut`.
  abbrev pub update : BTree V → ℕ → (V → V) → BTree V
  update t key f = record t { entries = OrdMap.modify key f t.entries }

  abbrev pub delete : BTree V → ℕ → Option V × BTree V
  delete t key = (get key t.entries, record t { entries = OrdMap.remove key t.entries })

  -- `range` panics if its start is greater than its end.
  abbrev pub range_scan : BTree V → ℕ → ℕ → Result (List (ℕ × V))
  range_scan t start end =
      if ltb end start
      then panic
      else ok (entries_where (λ k v. leb start k && leb k end) t.entries)

  abbrev pub set_root_page : BTree V → ℕ → BTree V
  set_root_page t page = record t { root_page = page }
