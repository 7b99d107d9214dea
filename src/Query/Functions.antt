-- ===== src/Query/Functions.antt =====
-- The functions of the query language by name (crates/cypherlite-query/src/executor/eval.rs).
use cypher_lite.Prelude.{List, [], ◌∷◌, if◌then◌else◌}
use cypher_lite.Catalog.{Name, same_name}

-- What a call does, by the name in lower case.
pub data Function : Type 0 where
  aggregate id_of type_of labels_of datetime now scalar : Function

-- "count"
abbrev text_count : Name
text_count = 99 ∷ 111 ∷ 117 ∷ 110 ∷ 116 ∷ []

-- "sum"
abbrev text_sum : Name
text_sum = 115 ∷ 117 ∷ 109 ∷ []

-- "avg"
abbrev text_avg : Name
text_avg = 97 ∷ 118 ∷ 103 ∷ []

-- "min"
abbrev text_min : Name
text_min = 109 ∷ 105 ∷ 110 ∷ []

-- "max"
abbrev text_max : Name
text_max = 109 ∷ 97 ∷ 120 ∷ []

-- "collect"
abbrev text_collect : Name
text_collect = 99 ∷ 111 ∷ 108 ∷ 108 ∷ 101 ∷ 99 ∷ 116 ∷ []

-- "id"
abbrev text_id : Name
text_id = 105 ∷ 100 ∷ []

-- "type"
abbrev text_type : Name
text_type = 116 ∷ 121 ∷ 112 ∷ 101 ∷ []

-- "labels"
abbrev text_labels : Name
text_labels = 108 ∷ 97 ∷ 98 ∷ 101 ∷ 108 ∷ 115 ∷ []

-- "datetime"
abbrev text_datetime : Name
text_datetime = 100 ∷ 97 ∷ 116 ∷ 101 ∷ 116 ∷ 105 ∷ 109 ∷ 101 ∷ []

-- "now"
abbrev text_now : Name
text_now = 110 ∷ 111 ∷ 119 ∷ []

abbrev builtins : List (Name × Function)
builtins =
    (text_count, aggregate)
    ∷ (text_sum, aggregate)
    ∷ (text_avg, aggregate)
    ∷ (text_min, aggregate)
    ∷ (text_max, aggregate)
    ∷ (text_collect, aggregate)
    ∷ (text_id, id_of)
    ∷ (text_type, type_of)
    ∷ (text_labels, labels_of)
    ∷ (text_datetime, datetime)
    ∷ (text_now, now)
    ∷ []

abbrev find_function : Name → List (Name × Function) → Function
find_function name [] = scalar
find_function name ((n, f) ∷ fs) = if same_name n name then f else find_function name fs

unfoldable pub function_of : Name → Function
function_of name = find_function name builtins

-- "__temporal_props__"
abbrev pub temporal_prefix : Name
temporal_prefix =
    95 ∷ 95 ∷ 116 ∷ 101 ∷ 109 ∷ 112 ∷ 111 ∷ 114 ∷ 97 ∷ 108 ∷ 95 ∷ 112 ∷ 114 ∷ 111 ∷ 112 ∷ 115 ∷ 95
    ∷ 95 ∷ []

-- "__query_start_ms__"
abbrev pub query_start : Name
query_start =
    95 ∷ 95 ∷ 113 ∷ 117 ∷ 101 ∷ 114 ∷ 121 ∷ 95 ∷ 115 ∷ 116 ∷ 97 ∷ 114 ∷ 116 ∷ 95 ∷ 109 ∷ 115 ∷ 95
    ∷ 95 ∷ []
