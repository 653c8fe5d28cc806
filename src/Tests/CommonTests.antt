-- ===== src/Tests/CommonTests.antt =====
-- The priorities of userspace/engine/falco_common.cpp.
use falco.Prelude.{◌≡◌, refl, ◌↔◌, none, some, ℕ_discrete, nat_eq, string_eq, list_eq}
use falco.FalcoCommon.{
  c_str, to_lower, find_priority, parse_priority, find_rule_matching, parse_rule_matching,
}
use falco.FalcoCommon.Names.{IsNamed, parse_priority_iff}

parses_info : parse_priority "INFO" ≡ some 6
unfolding parse_priority find_priority c_str to_lower ℕ_discrete list_eq
parses_info = refl

parses_nothing : parse_priority "infos" ≡ none
unfolding parse_priority find_priority c_str to_lower ℕ_discrete list_eq
parses_nothing = refl

-- Nothing behind a NUL is read.
parses_before_nul : parse_priority "error\0x" ≡ some 3
unfolding parse_priority find_priority c_str to_lower ℕ_discrete list_eq
parses_before_nul = refl

parses_all : parse_rule_matching "ALL" ≡ some 1
unfolding parse_rule_matching find_rule_matching c_str to_lower ℕ_discrete list_eq
parses_all = refl

parse_priority_iff_example : (parse_priority "WARNING" ≡ some 4) ↔ IsNamed "WARNING" 4
parse_priority_iff_example = parse_priority_iff "WARNING" 4
