-- ===== src/Tests/CompilerTests.antt =====
-- Resolving the macros of a filter in userspace/engine/rule_loader_compiler.cpp.
use falco.Prelude.{
  String, List, map, inl, ◌≡◌, refl, true, false, some, [], ◌∷◌, ℕ_discrete, nat_eq, string_eq,
  list_eq,
}
use falco.Filter.{identifier_expr, value_expr, not_expr}
use falco.IndexedVector.{IndexedVector, at, at_id, find, update}
use falco.LoadInfo.{
  Context, MacroInfo, new_context, Entry, item_entry, list_entry, FalcoSource, is_valid_lhs_field,
}
use falco.Collector.Exceptions.{is_field}
use falco.RuleInfo.{RuleExceptionInfo}
use falco.ByteString.{find_char}
use falco.Compiler.Conditions.{
  built, out_of_range, build_rule_exception_infos, add_exceptions, exception_condition, list_values,
  join_fields, value_text, paren_item, quote_item, insert_field,
}
use falco.Compiler.InRange.{IsAnswer, build_rule_exception_infos-IsAnswer}
use falco.MacroResolver.{
  Resolver, find_macro, assign_macro, set_macro, clear, run, visit, visit_node, visit_identifier,
  visit_macro, visit_unknown, finish_macro, finish_run,
}
use falco.Compiler.{
  FalcoMacro, Resolved, resolved, refused, set_macros, mark_used, report, finish_macros,
  resolve_macros,
}
use falco.Compiler.References.{left_references, resolve_macros-references}

abbrev no_macros : Resolver
no_macros = record { m_errors = []; m_unknown_macros = []; m_resolved_macros = []; m_macros = [] }

abbrev spawned : MacroInfo
spawned = record {
  ctx = new_context "r";
  cond_ctx = new_context "r";
  index = 1;
  visibility = 1;
  name = "spawned";
  cond = "evt.type=execve";
}

abbrev compiled : FalcoMacro
compiled = record { used = false; id = 0; name = "spawned"; condition = some (value_expr "v") }

abbrev macros : IndexedVector FalcoMacro
macros = record { m_entries = compiled ∷ []; m_index = ("spawned", 0) ∷ [] }

-- The macro is seen from number 2 on.
resolves :
    resolve_macros no_macros (spawned ∷ []) macros (not_expr (identifier_expr "spawned" 4)) 2
    ≡ some (
        resolved
          (not_expr (value_expr "v"))
          (record macros { m_entries = record compiled { used = true } ∷ [] }))
unfolding resolve_macros set_macros set_macro assign_macro clear at at_id find update string_eq
    ℕ_discrete run visit visit_node visit_identifier find_macro visit_macro finish_macro finish_run
    finish_macros report mark_used
resolves = refl

refuses :
    resolve_macros no_macros (spawned ∷ []) macros (not_expr (identifier_expr "spawned" 4)) 1
    ≡ some (refused "Undefined macro 'spawned' used in filter." 4)
unfolding resolve_macros set_macros set_macro clear at find string_eq ℕ_discrete run visit
    visit_node visit_identifier find_macro visit_unknown finish_run finish_macros report mark_used
refuses = refl

resolve_macros-references_example :
    (out : Resolved) × (resolve_macros no_macros
        (spawned ∷ [])
        macros
        (not_expr (identifier_expr "spawned" 4))
        2
      ≡ some out)
    × (left_references out ≡ [])
resolve_macros-references_example =
    resolve_macros-references no_macros (spawned ∷ []) macros
      (not_expr (identifier_expr "spawned" 4)) 2

abbrev rule_ctx : Context
rule_ctx = new_context "r"

abbrev texts : List String → Entry
texts ss = list_entry (map item_entry ss)

-- Two fields, with one pair of values.
abbrev known_pairs : RuleExceptionInfo
known_pairs = record {
  ctx = rule_ctx;
  name = "known";
  fields = texts ("proc.name" ∷ "fd.name" ∷ []);
  comps = texts ("=" ∷ "in" ∷ []);
  values = texts ("ls" ∷ "/etc" ∷ []) ∷ [];
}

abbrev anything : FalcoSource
anything = record { name = "syscall"; compiles = λ s. true; new_filtercheck = λ s. true }

builds :
    build_rule_exception_infos ("in" ∷ []) (known_pairs ∷ []) "spawned" []
    ≡ built "(spawned) and not (( proc.name = ls and  fd.name in (/etc)))"
        ("proc.name" ∷ "fd.name" ∷ [])
unfolding build_rule_exception_infos add_exceptions exception_condition list_values join_fields
    value_text paren_item quote_item insert_field string_eq ℕ_discrete find_char
builds = refl

-- Without comps, as a selective replacement may store an exception, one is read out of range.
misses_comps :
    build_rule_exception_infos
      ("in" ∷ [])
      (record known_pairs { comps = texts [] } ∷ [])
      "spawned"
      []
    ≡ out_of_range
unfolding build_rule_exception_infos add_exceptions exception_condition list_values join_fields
    value_text paren_item quote_item insert_field string_eq ℕ_discrete find_char
misses_comps = refl

build_rule_exception_infos-IsAnswer_example :
    IsAnswer true (build_rule_exception_infos ("in" ∷ []) (known_pairs ∷ []) "spawned" [])
unfolding is_field is_valid_lhs_field find_char string_eq ℕ_discrete
build_rule_exception_infos-IsAnswer_example =
    build_rule_exception_infos-IsAnswer ("in" ∷ []) ("=" ∷ "in" ∷ []) (some anything)
      (known_pairs ∷ []) "spawned" []
      (
        inl (
          refl,
          record {
            same_length = refl;
            operators = (refl, (refl, tt));
            fields = (refl, (refl, tt));
          },
        ),
        tt,
      )
