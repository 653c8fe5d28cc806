-- ===== src/Compiler/Rules.antt =====
-- userspace/engine/rule_loader_compiler.cpp: the rules are compiled, and everything that was
-- collected, with the output of userspace/engine/rule_loader_compile_output.h.
use falco.Prelude.{
  ℕ, String, ◌<>◌, Bool, true, false, not, ◌&&◌, ◌||◌, Option, none, some, List, [], ◌∷◌, ltb,
  if◌then◌else◌, ◌==◌, nat_eq, string_eq, list_eq, length,
}
use falco.Filter.{Expr}
use falco.IndexedVector.{IndexedVector, at, empty_vector}
use falco.LoadInfo.{
  Configuration, FalcoSource, load_err_compile_output, load_err_validate, load_unknown_filter,
  load_no_evttype, load_unused_macro, load_unused_list, add_error, MacroInfo, ListInfo,
}
use falco.RuleInfo.{RuleInfo}
use falco.Rule.{FalcoRule}
use falco.Collector.{Collector}
use falco.Compiler.{FalcoMacro}
use falco.Compiler.Conditions.{Built, built, threw, out_of_range, build_rule_exception_infos}
use falco.Compiler.Lists.{FalcoList, compile_list_infos}
use falco.Compiler.Infos.{
  CompilerLibraries, CompileState, Compiling, throw_code, crash, gets, warn_code, put_lists,
  put_rule, err_is_unknown_type_or_field,
}
use falco.Compiler.Filters.{
  apply_output_substitutions, compile_condition, compile_macros_infos, info_from_name,
}
use falco.Reader.{Outcome, returned, raised, failed, unfinished, ◌>>=◌, ◌>>◌, pure}

-- The ids are set when the rules are inserted.
abbrev new_rule :
    RuleInfo
    → (output : String) → (exception_fields : List String) → Expr
    → (filter : ℕ) → FalcoRule
new_rule r output exception_fields ast filter = record {
  id = 0;
  source = r.source;
  name = r.name;
  description = r.desc;
  output = output;
  tags = r.tags;
  exception_fields = exception_fields;
  priority = r.priority;
  condition = some ast;
  filter = some filter;
}

module _ (lib : CompilerLibraries) where
  unfoldable pub finish_build : Built → Compiling (String × List String)
  finish_build (built condition fields) = pure (condition, fields)
  finish_build (threw err) = throw_code err.ec err.msg err.ctx
  finish_build out_of_range = crash

  -- The condition with the exceptions, and their fields.
  unfoldable pub build_condition : RuleInfo → Compiling (String × List String)
  build_condition r = elim r.exceptions [
    | [] ↦ pure (r.cond, [])
    | ex ∷ exs ↦ finish_build (build_rule_exception_infos lib.list_operators (ex ∷ exs) r.cond [])
  ]

  unfoldable pub build_output : Configuration → RuleInfo → String
  build_output cfg r =
      if not cfg.replace_output_container_info || r.source == lib.syscall_source
      then apply_output_substitutions lib cfg r.output
      else r.output

  -- Whether the rule is to be compiled: its output is valid, or has unknown fields that are allowed.
  unfoldable pub check_output : FalcoSource → RuleInfo → (output : String) → Compiling Bool
  check_output source r output = elim (lib.format_error source output) [
    | none ↦ pure true
    | some err ↦
        if err_is_unknown_type_or_field err && r.skip_if_unknown_filter
        then (do warn_code load_unknown_filter err r.output_ctx; pure false)
        else throw_code load_err_compile_output err r.output_ctx
  ]

  unfoldable pub warn_evttypes : RuleInfo → Expr → Compiling (Unit {0})
  warn_evttypes r ast =
      let evttypes = lib.ppm_event_codes ast in
      if (r.source == lib.syscall_source)
        && ((length evttypes == 0 || ltb 100 (length evttypes)) && r.warn_evttypes)
      then warn_code load_no_evttype
          "Rule matches too many evt.type values. This has a significant performance penalty." r.ctx
      else pure tt

  unfoldable pub finish_rule :
      RuleInfo → (output : String) → (fields : List String) → Expr × Option ℕ → Compiling (Unit {0})
  finish_rule r output fields (ast, none) = pure tt
  finish_rule r output fields (ast, some filter) = do
    warn_evttypes r ast
    put_rule (new_rule r output fields ast filter)

  -- A rule whose source is known.
  unfoldable pub compile_known_rule : List MacroInfo → RuleInfo → FalcoSource → Compiling (Unit {0})
  compile_known_rule macros r source = do
    (condition, fields) ← build_condition r
    cfg ← gets (λ s. s.cfg)
    let output = build_output cfg r
    goes_on ← check_output source r output
    if goes_on
        then (do
          compiled ←
              compile_condition lib macros condition source r.cond_ctx r.ctx
                r.skip_if_unknown_filter
          finish_rule r output fields compiled)
        else pure tt

  unfoldable pub compile_rule_info : List MacroInfo → RuleInfo → Compiling (Unit {0})
  compile_rule_info macros r = if r.unknown_source then pure tt else do
    cfg ← gets (λ s. s.cfg)
    elim (at r.source cfg.sources) [
      | none ↦ throw_code load_err_validate ("Unknown source at compile-time" <> r.source) r.ctx
      | some source ↦ compile_known_rule macros r source
    ]

  unfoldable pub compile_each_rule : List MacroInfo → List RuleInfo → Compiling (Unit {0})
  compile_each_rule macros [] = pure tt
  compile_each_rule macros (r ∷ rs) = do compile_rule_info macros r; compile_each_rule macros rs

  unfoldable pub compile_rule_infos :
      {SinspVersion : Type 0} → Collector SinspVersion → Compiling (Unit {0})
  compile_rule_infos col = compile_each_rule col.m_macro_infos.m_entries col.m_rule_infos.m_entries

  unfoldable pub warn_unused_macros :
      IndexedVector MacroInfo → List FalcoMacro → Compiling (Unit {0})
  warn_unused_macros infos [] = pure tt
  warn_unused_macros infos (m ∷ ms) = do
    if m.used then pure tt else (do
      info ← info_from_name lib infos "macro" m.name
      warn_code load_unused_macro "Macro not referred to by any other rule/macro" info.ctx)
    warn_unused_macros infos ms

  unfoldable pub warn_unused_lists : IndexedVector ListInfo → List FalcoList → Compiling (Unit {0})
  warn_unused_lists infos [] = pure tt
  warn_unused_lists infos (l ∷ ls) = do
    if l.used then pure tt else (do
      info ← info_from_name lib infos "list" l.name
      warn_code load_unused_list "List not referred to by any other rule/macro" info.ctx)
    warn_unused_lists infos ls

  unfoldable pub warn_unused :
      {SinspVersion : Type 0} → Collector SinspVersion → Compiling (Unit {0})
  warn_unused col = do
    out ← gets (λ s. s)
    warn_unused_macros col.m_macro_infos out.macros.m_entries
    warn_unused_lists col.m_list_infos out.lists.m_entries

  unfoldable pub expand : {SinspVersion : Type 0} → Collector SinspVersion → Compiling (Unit {0})
  expand col = do
    lists ← gets (λ s. s.lists)
    put_lists (compile_list_infos col lists)
    compile_macros_infos lib col
    compile_rule_infos col

  -- An exception of the loader is recorded and ends the compilation.
  unfoldable pub finish_expansion :
      {SinspVersion : Type 0}
      → Collector SinspVersion
      → Outcome CompileState (Unit {0})
      → Outcome CompileState (Unit {0})
  finish_expansion col (returned u s) = warn_unused col s
  finish_expansion col (raised err s) =
      returned tt
        (record s { cfg = record s.cfg { res = add_error err.ec err.msg err.ctx s.cfg.res } })
  finish_expansion col (failed f s) = failed f s
  finish_expansion col (unfinished s) = unfinished s

  -- `compile` into a new output.
  unfoldable pub compile :
      {SinspVersion : Type 0}
      → Configuration
      → Collector SinspVersion
      → Outcome CompileState (Unit {0})
  compile cfg col = finish_expansion col (
      expand col
        (record { cfg = cfg; lists = empty_vector; macros = empty_vector; rules = empty_vector }))
