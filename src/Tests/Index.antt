-- ===== src/Tests/Index.antt =====
-- The entries of a property index at concrete values.
use cypher_lite.Prelude.{some, ◌≡◌, ◌↔◌, refl, true, [], ◌∷◌}
use cypher_lite.Core.{PropertyValue, int64, float64}
use cypher_lite.Core.Result.{panic}
use cypher_lite.Index.Keys.{less, cmp_key, same_key}
use cypher_lite.Index.Entries.{insert, has_key, place_key, Tree, ids_of, enter, withdraw, range_ids}
use cypher_lite.Index.{IndexManager, create_index, find_index, find_name, find_value}
use cypher_lite.Index.Writes.{find_index_mut}
use cypher_lite.Catalog.{same_name}
use cypher_lite.Index.Lookup.{starts, enters, leaves, ids_of-Entered}

abbrev three : PropertyValue
three = int64 3

-- Node 7 and node 9 have the value 3, and node 7 loses it.
abbrev entries : Tree
entries = withdraw three 7 (enter three 9 (enter three 7 []))

ids_of-Entered_example :
    (ids_of three entries ≡ 9 ∷ [])
    × ((v : PropertyValue) → (same_key v three ≡ true) ↔ (v ≡ three))
unfolding same_key cmp_key
ids_of-Entered_example = ids_of-Entered entries ((three, 9) ∷ []) three (
    leaves (enter three 9 (enter three 7 [])) ((three, 7) ∷ (three, 9) ∷ []) three 7
      (enters (enter three 7 []) ((three, 7) ∷ []) three 9 (enters [] [] three 7 starts)))

-- A range from 5 to 1
range-panics : range_ids (int64 5) (int64 1) entries ≡ panic
unfolding range_ids cmp_key
range-panics = refl

-- -1 is less than 1, and -0.0 than 0.0.
cmp_key-signs :
    (cmp_key (int64 18446744073709551615) (int64 1) ≡ less)
    × (cmp_key (float64 9223372036854775808) (float64 0) ≡ less)
unfolding cmp_key
cmp_key-signs = (refl, refl)

-- A manager with an index of one label and property, and an entry put into it.
abbrev written : IndexManager
written =
    find_index_mut (create_index (record { indexes = [] }) (80 ∷ []) 1 2).1 1 2
      (λ i. insert i three 7)

find_index-written :
    find_index written 1 2
    ≡ some (
      record { name = 80 ∷ []; label_id = 1; prop_key_id = 2 },
      record { tree = (three, 7 ∷ []) ∷ [] },
    )
unfolding find_index create_index find_name find_value same_name insert enter has_key place_key
find_index-written = refl
