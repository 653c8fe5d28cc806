-- ===== src/Tests/EngineTests.antt =====
-- Runs of userspace/engine/falco_engine.cpp.
use falco.Prelude.{
  ℕ, String, ◌≡◌, refl, ◌↔◌, true, false, not, List, [], ◌∷◌, ◌++◌, arith, ℕ_discrete, leb, nat_eq,
  string_eq, list_eq, length, get_elem?,
}
use falco.LoadInfo.{add_error, add_warning, is_valid_lhs_field}
use falco.RuleInfo.{has_any_value}
use falco.Compiler.Conditions.{
  quote_item, paren_item, insert_field, join_items, item_values, value_text, join_fields,
  list_values, exception_condition, add_exceptions, build_rule_exception_infos,
}
use falco.Compiler.ListReferences.{
  find_from, skip_left, skip_right, join_values, drop_comma, substitute, is_reference, resolve_at,
  resolve_from, resolve_list,
}
use falco.Compiler.Lists.{
  insert_with_id, find_reference, expand_items, compile_each_list, mark_used_lists,
  compile_list_infos,
}
use falco.Compiler.Infos.{
  throw_code, throw_std, crash, gets, warn_code, put_lists, put_macros, put_rule, resolve_lists,
  or_stop, has_text, err_is_unknown_type_or_field,
}
use falco.Compiler.Filters.{
  place_context, parsed, parse_condition, apply_output_substitutions, finish_resolution,
  resolve_condition, warn_all, warn_places, finish_filter, compile_condition, compile_each_macro,
  info_from_name, set_condition, resolve_macro, resolve_each_macro, compile_macros_infos,
}
use falco.Compiler.Rules.{
  finish_build, build_condition, build_output, check_output, warn_evttypes, finish_rule,
  compile_known_rule, compile_rule_info, compile_each_rule, compile_rule_infos, warn_unused_macros,
  warn_unused_lists, warn_unused, expand, finish_expansion, compile,
}
use falco.Compiler.{set_macros, mark_used, report, finish_macros, resolve_macros}
use falco.Reader.{
  continue_with, ◌>>=◌, pure, throw_if, or_throw, stop, or_fail, located, handle, catch_std,
  finish_call, collect, warn,
}
use falco.IndexedVector.{find, assign, clear, insert, at_id, at, update}
use falco.ByteString.{find_char, starts_with}
use falco.Rule.{FalcoRule}
use falco.Engine.{
  FilterRuleset, EngineSource, FalcoEngine, new_engine, add_source, find_ruleset_id, find_source_at,
}
use falco.Engine.Events.{all_matches, process_event, default_rule}
use falco.Engine.Loading.{add_output}
use falco.Engine.Loaded.{IsAdded, rules_of, add_output-IsAdded}
use falco.Engine.RulesetIds.{find_ruleset_ids, find_ruleset_id-inj}
use falco.Engine.Counts.{IsAlerted, matched, process_event-IsAlerted}
use falco.LoadInfo.{FalcoSource}
use falco.Compiler.Rules.{compile}
use falco.Reader.{after}
use falco.Tests.CompileTests.{collector, libraries, config}

succeeds : (after (compile libraries config collector)).cfg.res.success ≡ true
unfolding add_error add_exceptions add_warning apply_output_substitutions assign at at_id
    build_condition build_output build_rule_exception_infos catch_std check_output clear collect
    compile compile_condition compile_each_list compile_each_macro compile_each_rule
    compile_known_rule compile_list_infos compile_macros_infos compile_rule_info compile_rule_infos
    continue_with crash drop_comma err_is_unknown_type_or_field exception_condition expand
    expand_items find find_from find_reference finish_build finish_call finish_expansion
    finish_filter finish_macros finish_resolution finish_rule gets handle has_any_value has_text
    info_from_name insert insert_field insert_with_id is_reference is_valid_lhs_field item_values
    join_fields join_items join_values list_values located mark_used mark_used_lists or_fail or_stop
    or_throw paren_item parse_condition parsed place_context pure put_lists put_macros put_rule
    quote_item report resolve_at resolve_condition resolve_each_macro resolve_from resolve_list
    resolve_lists resolve_macro resolve_macros set_condition set_macros skip_left skip_right stop
    substitute throw_code throw_if throw_std update value_text warn warn_all warn_code warn_evttypes
    warn_places warn_unused warn_unused_lists warn_unused_macros ◌>>=◌ string_eq ℕ_discrete list_eq
    find_char falco.ByteString.find falco.MacroResolver.run falco.MacroResolver.visit
    falco.MacroResolver.visit_node falco.MacroResolver.finish_run
succeeds = refl

-- A ruleset without a condition: every rule matches.
abbrev ops : FilterRuleset (List FalcoRule) ℕ
ops = record {
  new_ruleset = [];
  add = λ r rs. rs ++ r ∷ [];
  enable = λ name match id rs. rs;
  disable = λ name match id rs. rs;
  enable_tags = λ tags id rs. rs;
  disable_tags = λ tags id rs. rs;
  enabled_count = λ id rs. (rs, length rs);
  run = λ ev id rs. get_elem? rs 0;
  run_matches = λ ev id rs matches. (matches ++ rs, not (leb (length rs) 0));
}

abbrev source : FalcoSource
source = record { name = "syscall"; compiles = λ s. true; new_filtercheck = λ s. true }

abbrev engine : FalcoEngine (List FalcoRule) String
engine = (add_source ops "syscall" source (new_engine collector)).0

add_output-IsAdded_example :
    IsAdded
      (after (compile libraries config collector)).rules
      rules_of
      "rules.yaml"
      (add_output ops "rules.yaml" (after (compile libraries config collector)) engine)
add_output-IsAdded_example =
    add_output-IsAdded ops libraries config collector "rules.yaml" engine succeeds

abbrev name_a : String
name_a = "a"

abbrev name_b : String
name_b = "b"

find_ruleset_id-inj_example :
    ((find_ruleset_id "a"
        (find_ruleset_ids ("a" ∷ []) (new_engine {R = List FalcoRule} collector))).1
      ≡ (find_ruleset_id "b"
          (find_ruleset_id "a"
            (find_ruleset_ids ("a" ∷ []) (new_engine {R = List FalcoRule} collector))).0).1)
    ↔ (name_a ≡ name_b)
find_ruleset_id-inj_example =
    find_ruleset_id-inj (List FalcoRule) collector ("a" ∷ []) "a" "b" (omega arith)

abbrev known_source : EngineSource (List FalcoRule)
known_source = record { info = source; filter_ruleset = default_rule ∷ []; m_rules = [] }

abbrev loaded_engine : FalcoEngine (List FalcoRule) String
loaded_engine = record engine {
  m_sources = record { m_entries = known_source ∷ []; m_index = ("syscall", 0) ∷ [] };
  m_rule_stats_manager = record {
    m_total = 0;
    m_by_priority = 0 ∷ 0 ∷ 0 ∷ 0 ∷ 0 ∷ 0 ∷ 0 ∷ 0 ∷ [];
    m_by_rule_id = 0 ∷ [];
  };
}

process_event-IsAlerted_example :
    IsAlerted 5
      (matched 5 ops all_matches 0 (default_rule ∷ []))
      loaded_engine
      (process_event ops false 0 5 0 all_matches loaded_engine)
unfolding find_source_at at_id
process_event-IsAlerted_example =
    process_event-IsAlerted 5 ops 0 0 known_source loaded_engine all_matches refl (omega arith)
      ((omega arith, omega arith), tt)
