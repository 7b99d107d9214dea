-- ===== src/Query/Datetime.antt =====
-- crates/cypherlite-query/src/executor/eval.rs: ISO 8601 texts as milliseconds since 1970. A text is its
-- bytes; a slice that cuts a character panics. What `trim` takes away is a parameter of the evaluation.
use cypher_lite.Prelude.{
  ℕ, ◌+◌, ◌-◌, ◌*◌, ◌/◌, ◌%◌, ◌^◌, Bool, not, ◌&&◌, ◌||◌, String, Option, none, some, [], ◌∷◌, ltb,
  leb, ◌==◌, if◌then◌else◌, length, take, drop, get_elem?,
}
use cypher_lite.Catalog.{Name}
use cypher_lite.Query.Value.{Outcome, ok, error, panic, ◌>>=◌}
use cypher_lite.Query.Integer.{
  negate, is_negative, wrapping_add, wrapping_sub, wrapping_mul, quotient,
}

abbrev pub days_from_civil : ℕ → ℕ → ℕ → Outcome ℕ
days_from_civil year month day =
    let y = if leb month 2 then wrapping_sub year 1 else year in
    let m = if leb month 2 then month + 9 else month - 3 in
    let doy = (153 * m + 2) / 5 + day - 1 in
    quotient (if is_negative y then wrapping_sub y 399 else y) 400 >>= λ era.
    let yoe = wrapping_sub y (wrapping_mul era 400) % 2 ^ 32 in
    let doe = yoe * 365 + yoe / 4 - yoe / 100 + doy in
    ok (wrapping_sub (wrapping_add (wrapping_mul era 146097) doe) 719468)

-- `from_str` of the integers, of a text so short that nothing overflows.
abbrev digits : ℕ → Name → Option ℕ
digits n [] = some n
digits n (c ∷ cs) =
    let rest = digits (10 * n + (c - 48)) cs in if leb 48 c && leb c 57 then rest else none

abbrev some_digits : Name → Option ℕ
some_digits [] = none
some_digits (c ∷ cs) = digits 0 (c ∷ cs)

abbrev parse_u32 : Name → Option ℕ
parse_u32 [] = none
parse_u32 (c ∷ cs) = if c == 43 then some_digits cs else some_digits (c ∷ cs)

abbrev negated : Option ℕ → Option ℕ
negated none = none
negated (some n) = some (negate n)

abbrev parse_i64 : Name → Option ℕ
parse_i64 [] = none
parse_i64 (c ∷ cs) = if c == 45 then negated (some_digits cs) else parse_u32 (c ∷ cs)

-- No character goes over an offset.
abbrev is_boundary : Name → ℕ → Bool
is_boundary s i = elim (get_elem? s i) [ none ↦ i == length s | some b ↦ ltb b 0x80 || leb 0xC0 b ]

-- `&s[from..to]`
unfoldable pub slice : Name → ℕ → ℕ → Outcome Name
slice s from to =
    if is_boundary s from && is_boundary s to then ok (take (to - from) (drop from s)) else panic

abbrev or_error : String → Name → Option ℕ → Outcome ℕ
or_error message s none = error message s
or_error message s (some n) = ok n

-- `s[from..to].parse()`
abbrev field : (Name → Option ℕ) → String → Name → Name → ℕ → ℕ → Outcome ℕ
field parse message s text from to = slice text from to >>= λ t. or_error message s (parse t)

-- `s.as_bytes()[i] != b`
abbrev expect : String → Name → Name → ℕ → ℕ → Outcome ℕ
expect message s text i b = elim (get_elem? text i) [
  | none ↦ panic
  | some c ↦ if c == b then ok b else error message s
]

-- The minutes that the zone is ahead.
abbrev timezone : Name → Name → Outcome ℕ
timezone s [] = ok 0
timezone s (c ∷ cs) =
    if c == 90 && length cs == 0
    then ok 0
    else if length cs == 5 && (c == 43 || c == 45)
    then (field parse_i64 "invalid timezone hour" s (c ∷ cs) 1 3 >>= λ h.
        field parse_i64 "invalid timezone minute" s (c ∷ cs) 4 6 >>= λ m.
        let offset = wrapping_add (wrapping_mul h 60) m in
        ok (if c == 43 then offset else negate offset))
    else error "invalid timezone" s

-- The seconds of the day, less those that the zone is ahead.
abbrev time_of : Name → Name → Outcome ℕ
time_of s [] = ok 0
time_of s (c ∷ time) =
    if not (c == 84)
    then error "expected 'T' separator" s
    else if ltb (length time) 8
    then error "incomplete time" s
    else do
      hour ← field parse_u32 "invalid hour" s time 0 2
      colon ← expect "invalid time format" s time 2 58
      minute ← field parse_u32 "invalid minute" s time 3 5
      colon ← expect "invalid time format" s time 5 58
      second ← field parse_u32 "invalid second" s time 6 8
      zone ← slice time 8 (length time)
      ahead ← timezone s zone
      ok (wrapping_sub (hour * 3600 + minute * 60 + second) (wrapping_mul ahead 60))

abbrev in_calendar : Name → ℕ → ℕ → Outcome ℕ
in_calendar s month day =
    if leb 1 month && (leb month 12 && (leb 1 day && leb day 31))
    then ok 0
    else error "invalid date values" s

-- The text after `trim`.
unfoldable pub parse_trimmed : Name → Outcome ℕ
parse_trimmed s = if ltb (length s) 10 then error "invalid datetime" s else do
  year ← field parse_i64 "invalid year" s s 0 4
  dash ← expect "invalid datetime" s s 4 45
  month ← field parse_u32 "invalid month" s s 5 7
  dash ← expect "invalid datetime" s s 7 45
  day ← field parse_u32 "invalid day" s s 8 10
  in_range ← in_calendar s month day
  rest ← slice s 10 (length s)
  time ← time_of s rest
  days ← days_from_civil year month day
  ok (wrapping_mul (wrapping_add (wrapping_mul days 86400) time) 1000)
