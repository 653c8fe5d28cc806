-- ===== src/FalcoCommon.antt =====
-- userspace/engine/falco_common.cpp: the names of the priorities and of the ways of matching.
pub mod Names
use falco.Prelude.{
  ℕ, zero, suc, ◌+◌, ◌-◌, ◌*◌, ◌/◌, ◌%◌, ◌^◌, ◌≤◌, ◌<◌, String, ◌<>◌, ◌≡◌, refl, sym, ap, ◌∙◌,
  subst, ◌≢◌, ◌↔◌, ◌⊎◌, inl, inr, ite, Bool, true, false, not, ◌&&◌, ◌||◌, Option, none, some, List,
  [], ◌∷◌, ◌++◌, map, arith, dec_lt, dec_le, ℕ_discrete, ltb, leb, if◌then◌else◌, ltb→lt, lt→ltb,
  leb→le, le→leb, tests, Bool-cases, Option-cases, Eq, ◌==◌, ==_self, ==_ne, ==_cases, nat_eq,
  string_eq, list_eq, contains, contains-append, nil-ne-cons, cons-ne-nil, length, get_elem?, set,
  replicate, take, drop, length-append, length-set, get_elem?-set_self, get_elem?-set_ne,
  get_elem?-append_lt, get_elem?-append_end, get_elem?-eq_some, get_elem?-lt, length-map,
  insert_sorted, erase, contains-insert_sorted, IsNodup, contains-erase, erase-IsNodup,
  append-IsNodup, IsIncreasing, insert_sorted-IsIncreasing, erase-IsIncreasing,
  IsIncreasing-IsNodup, ◌>>=◌, >>=-eq-some, take-append-drop, All, All-append, All-append_right,
  All-append_left, Member,
}
use falco.ByteString.{Bytes, codes}
use falco.Rule.{Priority}

abbrev pub priority_names : List String
priority_names =
    "Emergency" ∷ "Alert" ∷ "Critical" ∷ "Error" ∷ "Warning" ∷ "Notice" ∷ "Informational" ∷ "Debug"
    ∷ []

abbrev pub rule_matching_names : List String
rule_matching_names = "first" ∷ "all" ∷ []

abbrev pub priority_informational : Priority
priority_informational = 6

-- `tolower` of the C locale
unfoldable pub to_lower : ℕ → ℕ
to_lower c = if leb 65 c && leb c 90 then c + 32 else c

-- `v.c_str()`, as a function of C reads it: what stands before the first NUL.
unfoldable pub c_str : Bytes → Bytes
c_str [] = []
c_str (c ∷ s) = let rest = c_str s in if c == 0 then [] else c ∷ rest

-- What `strcasecmp` compares.
abbrev pub lowered : String → Bytes
lowered s = map to_lower (c_str (codes s))

-- `!strcasecmp(v, name)`
abbrev pub is_like : Bytes → String → Bool
is_like v name = v == lowered name

-- The test of one turn of the loop, on the text in lower case.
abbrev pub is_priority : Bytes → ℕ → String → Bool
is_priority v i name = is_like v name || i == priority_informational && is_like v "info"

unfoldable pub find_priority : Bytes → ℕ → List String → Option Priority
find_priority v i [] = none
find_priority v i (name ∷ names) =
    let rest = find_priority v (i + 1) names in if is_priority v i name then some i else rest

-- `none` is the answer false, and the exception of the other overload.
unfoldable pub parse_priority : String → Option Priority
parse_priority v = find_priority (lowered v) 0 priority_names

unfoldable pub format_priority : Priority → (shortfmt : Bool) → Option String
format_priority v shortfmt =
    if ltb v (length priority_names)
    then if v == priority_informational && shortfmt then some "Info" else get_elem? priority_names v
    else none

unfoldable pub find_rule_matching : Bytes → ℕ → List String → Option ℕ
find_rule_matching v i [] = none
find_rule_matching v i (name ∷ names) =
    let rest = find_rule_matching v (i + 1) names in if is_like v name then some i else rest

unfoldable pub parse_rule_matching : String → Option ℕ
parse_rule_matching v = find_rule_matching (lowered v) 0 rule_matching_names
