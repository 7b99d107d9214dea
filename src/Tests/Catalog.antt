-- ===== src/Tests/Catalog.antt =====
-- The catalog at concrete inputs.
use cypher_lite.Prelude.{◌≡◌, ◌↔◌, refl, some, [], ◌∷◌, arith}
use cypher_lite.Core.Result.{ok}
use cypher_lite.Index.{create_index, drop_index, find_name}
use cypher_lite.Index.Definitions.{drop_index-create_index}
use cypher_lite.Catalog.{Name, Namespace, new_namespace, get_or_create, id_by_name, name_by_id}
use cypher_lite.Catalog.Names.{Named, starts, names, id_by_name-name_by_id}

-- "Person" and "City"
abbrev person : Name
person = 80 ∷ 101 ∷ 114 ∷ 115 ∷ 111 ∷ 110 ∷ []

abbrev city : Name
city = 67 ∷ 105 ∷ 116 ∷ 121 ∷ []

abbrev one_name : Namespace
one_name = (get_or_create new_namespace person).1

one_name-Named : Named one_name
one_name-Named = names new_namespace person starts (omega arith)

id_by_name-name_by_id_example :
    (id_by_name one_name person ≡ some 0) ↔ (name_by_id one_name 0 ≡ some person)
id_by_name-name_by_id_example = id_by_name-name_by_id one_name person 0 one_name-Named

drop_index-create_index_example :
    ((create_index (record { indexes = [] }) person 1 2).0 ≡ ok tt)
    × (drop_index (create_index (record { indexes = [] }) person 1 2).1 person
        ≡ (ok tt, record { indexes = [] }))
drop_index-create_index_example =
    drop_index-create_index (record { indexes = [] }) person 1 2 (unfold find_name in refl)
