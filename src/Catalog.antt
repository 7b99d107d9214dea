-- ===== src/Catalog.antt =====
-- crates/cypherlite-storage/src/catalog/mod.rs: the numbers of labels, property keys and relationship
-- types, and the definitions of indexes (`IndexDefinition` of index/mod.rs). A name is its bytes. The
-- hash maps are lists of entries; the program never sees their order.
pub mod Names
use cypher_lite.Prelude.{
  ℕ, Bool, true, false, not, ◌&&◌, Option, none, some, List, [], ◌∷◌, ◌++◌, ltb, ◌==◌,
  if◌then◌else◌, length, retain, add_u32,
}
use cypher_lite.OrdMap
use cypher_lite.OrdMap.{OrdMap}

abbrev pub Name : Type 0
Name = List ℕ

unfoldable pub same_name : Name → Name → Bool
same_name [] [] = true
same_name [] (b ∷ n) = false
same_name (a ∷ m) [] = false
same_name (a ∷ m) (b ∷ n) = a == b && same_name m n

-- `get` of a map from names
unfoldable pub number_of : Name → List (Name × ℕ) → Option ℕ
number_of n [] = none
number_of n ((m, id) ∷ ids) = if same_name m n then some id else number_of n ids

pub record Namespace : Type 0 where
  pub name_to_id : List (Name × ℕ)
  pub id_to_name : OrdMap Name
  pub next_id : ℕ

abbrev pub new_namespace : Namespace
new_namespace = record { name_to_id = []; id_to_name = []; next_id = 0 }

-- An insertion of a name that is not there.
unfoldable pub create_name : Namespace → Name → ℕ × Namespace
create_name ns name =
    let id = ns.next_id in
    (
      id,
      record {
        name_to_id = (name, id) ∷ ns.name_to_id;
        id_to_name = OrdMap.insert id name ns.id_to_name;
        next_id = add_u32 id 1;
      },
    )

unfoldable pub get_or_create : Namespace → Name → ℕ × Namespace
get_or_create ns name = elim (number_of name ns.name_to_id) [
  | some id ↦ (id, ns)
  | none ↦ create_name ns name
]

unfoldable pub id_by_name : Namespace → Name → Option ℕ
id_by_name ns name = number_of name ns.name_to_id

unfoldable pub name_by_id : Namespace → ℕ → Option Name
name_by_id ns id = OrdMap.get id ns.id_to_name

pub record IndexDefinition : Type 0 where
  pub name : Name
  pub label_id : ℕ
  pub prop_key_id : ℕ

pub record Catalog : Type 0 where
  pub labels : Namespace
  pub prop_keys : Namespace
  pub rel_types : Namespace
  pub indexes : List IndexDefinition

unfoldable pub get_or_create_label : Catalog → Name → ℕ × Catalog
get_or_create_label c name =
    let (id, ns) = get_or_create c.labels name in (id, record c { labels = ns })

unfoldable pub get_or_create_rel_type : Catalog → Name → ℕ × Catalog
get_or_create_rel_type c name =
    let (id, ns) = get_or_create c.rel_types name in (id, record c { rel_types = ns })

unfoldable pub get_or_create_prop_key : Catalog → Name → ℕ × Catalog
get_or_create_prop_key c name =
    let (id, ns) = get_or_create c.prop_keys name in (id, record c { prop_keys = ns })

unfoldable pub add_index_definition : Catalog → IndexDefinition → Catalog
add_index_definition c def = record c { indexes = c.indexes ++ (def ∷ []) }

unfoldable pub remove_index_definition : Catalog → Name → Bool × Catalog
remove_index_definition c name =
    let kept = retain (λ d. not (same_name d.name name)) c.indexes in
    (ltb (length kept) (length c.indexes), record c { indexes = kept })
