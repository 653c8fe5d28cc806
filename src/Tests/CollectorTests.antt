-- ===== src/Tests/CollectorTests.antt =====
-- Runs of the collector of userspace/engine/rule_loader_collector.cpp.
use falco.Prelude.{
  ℕ, String, ◌≡◌, refl, ◌↔◌, true, false, ◌||◌, none, some, List, [], ◌∷◌, arith, ℕ_discrete, ltb,
  leb, ◌==◌, nat_eq, string_eq, list_eq,
}
use falco.ByteString.{find_char}
use falco.IndexedVector.{empty_vector, at, at_id, find, insert, assign}
use falco.LoadInfo.{
  Context, new_context, Configuration, new_result, ListInfo, FalcoSource, entry, item_entry,
  list_entry, is_valid_lhs_field, to_entries, RuleLoadException, load_err_validate,
}
use falco.RuleInfo.{RuleInfo, RuleUpdateInfo, RuleExceptionInfo, has_any_value}
use falco.Collector.{
  Result, done, threw, list_info, macro_info, rule_info, define_info, Collector, SinspVersions,
  clear, define_list,
}
use falco.Collector.Exceptions.{
  valid, is_field, first_refused, is_operator_defined, list_comps, check_fields, check_comps,
  validate_exception_info, validate_exceptions, has_exception, append_values, append_exception,
  append_exceptions,
}
use falco.Collector.Rules.{
  has_other_source, append_fields, found, find_source, warn_source, mark_unknown, define_rule,
  append_found, append_rule, selective_replace,
}
use falco.Collector.Invariant.{after_call, IsOrdered}
use falco.Collector.Sequence.{
  defines_list, defines_rule, apply, apply_all, apply_all-IsOrdered, clear-IsOrdered,
}
use falco.Collector.Updates.{
  at-selective_replace, Replaces, IsRefused-ne-found, selective_replace-throws_iff, IsRefused,
  no_rule, ThrowsAt, append_rule-threw, IsKept,
}
use falco.Collector.Completed.{IsCompleted}
use falco.Collector.Validation.{validate_exception_info_iff, IsException}
use falco.Collector.Appending.{AreExceptions}

abbrev ctx : Context
ctx = new_context "rules.yaml"

abbrev syscall : FalcoSource
syscall = record {
  name = "syscall";
  compiles = λ s. false;
  new_filtercheck = λ s. s == "proc.name" || s == "fd.name";
}

abbrev config : Configuration
config = record {
  content = "";
  sources = record { m_entries = syscall ∷ []; m_index = ("syscall", 0) ∷ [] };
  name = "rules.yaml";
  output_extra = "";
  replace_output_container_info = false;
  res = new_result "rules.yaml";
}

abbrev operators : List String
operators = "=" ∷ "in" ∷ "pmatch" ∷ []

-- Versions that are all valid and compatible.
abbrev versions : SinspVersions ℕ
versions = record {
  sinsp_version = λ s. 1;
  is_valid_version = λ v. true;
  compatible_with = λ v w. leb w v;
  is_before = ltb;
  as_string = λ v. "1";
  engine_version = 1;
}

abbrev start : Collector ℕ
start = record {
  m_cur_index = 0;
  m_rule_infos = empty_vector;
  m_macro_infos = empty_vector;
  m_list_infos = empty_vector;
  m_required_plugin_versions = [];
  m_required_engine_version = record { ctx = ctx; version = 0 };
}

start-IsOrdered : IsOrdered start
unfolding clear
start-IsOrdered = clear-IsOrdered start

abbrev shells : ListInfo
shells = record { ctx = ctx; index = 0; visibility = 0; name = "shells"; items = "sh" ∷ [] }

abbrev pairs : RuleExceptionInfo
pairs = record {
  ctx = ctx;
  name = "pairs";
  fields = list_entry (item_entry "proc.name" ∷ item_entry "fd.name" ∷ []);
  comps = item_entry "";
  values = [];
}

abbrev more_pairs : RuleExceptionInfo
more_pairs = record pairs {
  fields = item_entry "";
  values = list_entry (item_entry "cat" ∷ item_entry "/etc" ∷ []) ∷ [];
}

abbrev shell_rule : RuleInfo
shell_rule = record {
  ctx = ctx;
  cond_ctx = ctx;
  output_ctx = ctx;
  index = 0;
  visibility = 0;
  unknown_source = false;
  name = "shell";
  cond = "proc.name in (shells)";
  source = "syscall";
  desc = "d";
  output = "o";
  tags = "a" ∷ [];
  exceptions = pairs ∷ [];
  priority = 5;
  enabled = true;
  warn_evttypes = true;
  skip_if_unknown_filter = false;
}

abbrev change : RuleUpdateInfo
change = record {
  ctx = ctx;
  cond_ctx = ctx;
  name = "shell";
  cond = some "evt.dir=<";
  output = none;
  desc = none;
  tags = none;
  exceptions = some (more_pairs ∷ more_pairs ∷ []);
  priority = none;
  enabled = none;
  warn_evttypes = none;
  skip_if_unknown_filter = none;
}

abbrev collected : Result (Collector ℕ × Configuration)
collected =
    apply_all versions operators (defines_list shells ∷ defines_rule shell_rule ∷ [])
      (start, config)

abbrev state : Collector ℕ
state = (after_call collected).0

-- The exception with the comps that the validation fills in.
abbrev kept_pairs : RuleExceptionInfo
kept_pairs = record pairs {
  comps = entry true "" (to_entries (item_entry "=" ∷ item_entry "=" ∷ []));
}

abbrev kept_rule : RuleInfo
kept_rule = record shell_rule { index = 1; visibility = 1; exceptions = kept_pairs ∷ [] }

validate_pairs : validate_exception_info operators (some syscall) pairs ≡ valid kept_pairs
unfolding validate_exception_info check_comps check_fields first_refused is_operator_defined
    is_field list_comps string_eq ℕ_discrete is_valid_lhs_field find_char
validate_pairs = refl

is_collected : at "shell" state.m_rule_infos ≡ some kept_rule
unfolding apply_all apply define_list define_rule define_info at at_id find insert assign
    has_other_source validate_exceptions validate_exception_info check_comps check_fields
    first_refused is_operator_defined is_field list_comps mark_unknown warn_source string_eq
    ℕ_discrete is_valid_lhs_field find_char
is_collected = refl

not_collected : at "bash" state.m_rule_infos ≡ none
unfolding apply_all apply define_list define_rule define_info at at_id find insert assign
    has_other_source validate_exceptions validate_exception_info check_comps check_fields
    first_refused is_operator_defined is_field list_comps mark_unknown warn_source string_eq
    ℕ_discrete is_valid_lhs_field find_char
not_collected = refl

cur_index : state.m_cur_index ≡ 2
unfolding apply_all apply define_list define_rule define_info at at_id find insert assign
    has_other_source validate_exceptions validate_exception_info check_comps check_fields
    first_refused is_operator_defined is_field list_comps mark_unknown warn_source string_eq
    ℕ_discrete is_valid_lhs_field find_char
cur_index = refl

state-IsOrdered : IsOrdered state
state-IsOrdered =
    apply_all-IsOrdered versions operators (defines_list shells ∷ defines_rule shell_rule ∷ [])
      start config (omega arith) start-IsOrdered

change_has_value : has_any_value change ≡ true
unfolding has_any_value
change_has_value = refl

finds_syscall : find_source config kept_rule ≡ found (some syscall)
unfolding find_source at at_id find string_eq
finds_syscall = refl

at-selective_replace_example : Replaces config change state
at-selective_replace_example = at-selective_replace config change state state-IsOrdered (
    IsRefused-ne-found config change state kept_rule (some syscall) is_collected change_has_value
      finds_syscall)

selective_replace-throws_iff_example :
    ThrowsAt (selective_replace config (record change { name = "bash" }) state) state
    ↔ IsRefused config (record change { name = "bash" }) state
selective_replace-throws_iff_example =
    selective_replace-throws_iff config (record change { name = "bash" }) state

is_refused : ThrowsAt (selective_replace config (record change { name = "bash" }) state) state
is_refused =
    (selective_replace-throws_iff config (record change { name = "bash" }) state).1
      (no_rule not_collected)

-- The second exception has fields, which cannot be appended to one that is known.
abbrev bad_change : RuleUpdateInfo
bad_change = record change { exceptions = some (more_pairs ∷ pairs ∷ []) }

abbrev error : RuleLoadException
error = record {
  ec = load_err_validate;
  msg = "Can not append exception fields to existing exception, only values";
  ctx = ctx;
}

append_fails :
    append_rule operators config bad_change state
    ≡ threw error (after_call (append_rule operators config bad_change state))
unfolding append_rule append_found append_fields append_exceptions append_exception has_any_value
    find_source has_exception append_values apply_all apply define_list define_rule define_info at
    at_id find insert assign has_other_source validate_exceptions validate_exception_info
    check_comps check_fields first_refused is_operator_defined is_field list_comps mark_unknown
    warn_source string_eq ℕ_discrete is_valid_lhs_field find_char
append_fails = refl

append_rule-threw_example :
    IsKept "shell" state (after_call (append_rule operators config bad_change state))
append_rule-threw_example =
    append_rule-threw operators config bad_change state
      (after_call (append_rule operators config bad_change state)) error state-IsOrdered
      append_fails

validate_exception_info_iff_example :
    (validate_exception_info operators (some syscall) pairs ≡ valid kept_pairs)
    ↔ IsCompleted operators pairs kept_pairs × IsException operators (some syscall) kept_pairs
validate_exception_info_iff_example =
    validate_exception_info_iff operators (some syscall) pairs kept_pairs

kept-AreExceptions : AreExceptions operators (some syscall) (kept_pairs ∷ [])
kept-AreExceptions = (
  ((validate_exception_info_iff operators (some syscall) pairs kept_pairs).0 validate_pairs).1,
  tt,
)

validates : validate_exceptions operators (some syscall) (pairs ∷ []) ≡ done (kept_pairs ∷ [])
unfolding validate_exceptions validate_exception_info check_comps check_fields first_refused
    is_operator_defined is_field list_comps string_eq ℕ_discrete is_valid_lhs_field find_char
validates = refl
