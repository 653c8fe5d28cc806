-- ===== src/Compiler/Output.antt =====
-- userspace/engine/rule_loader_compiler.cpp: a compilation numbers the rules of its output by their
-- positions.
use falco.Prelude.{
  ℕ, String, true, false, ◌&&◌, ◌||◌, Option, none, some, List, [], ◌∷◌, ltb, ◌==◌, nat_eq,
  string_eq, list_eq, length,
}
use falco.Filter.{Expr}
use falco.IndexedVector.{IndexedVector, at}
use falco.LoadInfo.{Configuration, FalcoSource, MacroInfo, ListInfo}
use falco.RuleInfo.{RuleInfo, RuleExceptionInfo}
use falco.Collector.{Collector}
use falco.Compiler.{FalcoMacro}
use falco.Compiler.Conditions.{Built, built, threw, out_of_range, build_rule_exception_infos}
use falco.Compiler.Lists.{FalcoList}
use falco.Compiler.Infos.{CompilerLibraries, CompileState, Compiling, err_is_unknown_type_or_field}
use falco.Compiler.Filters.{compile_macros_infos}
use falco.Compiler.Rules.{
  finish_build, build_condition, check_output, warn_evttypes, finish_rule, compile_known_rule,
  compile_rule_info, compile_each_rule, compile_rule_infos, warn_unused_macros, warn_unused_lists,
  warn_unused, expand, finish_expansion, compile,
}
use falco.Compiler.Numbered.{IsNumbered, empty_vector-IsNumbered}
use falco.Reader.{Outcome, returned, raised, failed, unfinished, after, pure}
use falco.Compiler.Ids.{
  Keeps, chain, branch, choose, pure-Keeps, throw_code-Keeps, crash-Keeps, gets-Keeps,
  warn_code-Keeps, put_lists-Keeps, put_rule-Keeps, compile_condition-Keeps, info_from_name-Keeps,
  compile_each_macro-Keeps, resolve_each_macro-Keeps,
}

module _ (lib : CompilerLibraries) where
  compile_macros_infos-Keeps :
      {SinspVersion : Type 0} (col : Collector SinspVersion) → Keeps (compile_macros_infos lib col)
  unfolding compile_macros_infos
  compile_macros_infos-Keeps col =
      chain (compile_each_macro-Keeps lib _)
        λ _. chain (gets-Keeps _) λ out. resolve_each_macro-Keeps lib _ _ 0

  finish_build-Keeps : (r : Built) → Keeps (finish_build lib r)
  unfolding finish_build
  finish_build-Keeps (built condition fields) = pure-Keeps _
  finish_build-Keeps (threw err) = throw_code-Keeps _ _ _
  finish_build-Keeps out_of_range = crash-Keeps _

  build_condition-Keeps : (r : RuleInfo) → Keeps (build_condition lib r)
  unfolding build_condition
  build_condition-Keeps r = go r.exceptions
    where
      go :
          (exs : List RuleExceptionInfo)
          → Keeps (elim exs as (λ x. Compiling (String × List String)) [
            | [] ↦ pure (r.cond, [])
            | ex ∷ exs ↦
                finish_build lib
                  (build_rule_exception_infos lib.list_operators (ex ∷ exs) r.cond [])
          ])
      go [] = pure-Keeps _
      go (ex ∷ exs) = finish_build-Keeps _

  check_output-Keeps :
      (source : FalcoSource) (r : RuleInfo) (output : String)
      → Keeps (check_output lib source r output)
  unfolding check_output
  check_output-Keeps source r output =
      choose (lib.format_error source output) (pure-Keeps true) (λ err.
        branch (err_is_unknown_type_or_field err && r.skip_if_unknown_filter)
          (chain (warn_code-Keeps _ _ _) λ _. pure-Keeps false) (throw_code-Keeps _ _ _))

  warn_evttypes-Keeps : (r : RuleInfo) (ast : Expr) → Keeps (warn_evttypes lib r ast)
  unfolding warn_evttypes
  warn_evttypes-Keeps r ast =
      let evttypes = lib.ppm_event_codes ast in
      branch
        ((r.source == lib.syscall_source)
          && ((length evttypes == 0 || ltb 100 (length evttypes)) && r.warn_evttypes))
        (warn_code-Keeps _ _ _) (pure-Keeps tt)

  finish_rule-Keeps :
      (r : RuleInfo) (output : String) (fields : List String) (c : Expr × Option ℕ)
      → Keeps (finish_rule lib r output fields c)
  unfolding finish_rule
  finish_rule-Keeps r output fields (ast, none) = pure-Keeps tt
  finish_rule-Keeps r output fields (ast, some filter) =
      chain (warn_evttypes-Keeps r ast) λ _. put_rule-Keeps _

  compile_known_rule-Keeps :
      (macros : List MacroInfo) (r : RuleInfo) (source : FalcoSource)
      → Keeps (compile_known_rule lib macros r source)
  unfolding compile_known_rule
  compile_known_rule-Keeps macros r source = chain (build_condition-Keeps r) λ _.
      chain (gets-Keeps _) λ _. chain (check_output-Keeps source r _) λ goes_on.
        branch goes_on
          (chain (compile_condition-Keeps lib macros _ source _ _ _) λ c. finish_rule-Keeps r _ _ c)
          (pure-Keeps tt)

  compile_rule_info-Keeps :
      (macros : List MacroInfo) (r : RuleInfo) → Keeps (compile_rule_info lib macros r)
  unfolding compile_rule_info
  compile_rule_info-Keeps macros r = branch r.unknown_source (pure-Keeps tt) (
      chain (gets-Keeps _) λ cfg.
        choose (at r.source cfg.sources) (throw_code-Keeps _ _ _)
          (λ source. compile_known_rule-Keeps macros r source))

  compile_each_rule-Keeps :
      (macros : List MacroInfo) (rs : List RuleInfo) → Keeps (compile_each_rule lib macros rs)
  unfolding compile_each_rule
  compile_each_rule-Keeps macros [] = pure-Keeps tt
  compile_each_rule-Keeps macros (r ∷ rs) =
      chain (compile_rule_info-Keeps macros r) λ _. compile_each_rule-Keeps macros rs

  expand-Keeps : {SinspVersion : Type 0} (col : Collector SinspVersion) → Keeps (expand lib col)
  unfolding expand compile_rule_infos
  expand-Keeps col = chain (gets-Keeps _) λ _.
      chain (put_lists-Keeps _)
        λ _. chain (compile_macros_infos-Keeps col) λ _. compile_each_rule-Keeps _ _

  warn_unused_macros-Keeps :
      (infos : IndexedVector MacroInfo) (ms : List FalcoMacro)
      → Keeps (warn_unused_macros lib infos ms)
  unfolding warn_unused_macros
  warn_unused_macros-Keeps infos [] = pure-Keeps tt
  warn_unused_macros-Keeps infos (m ∷ ms) =
      chain
        (branch m.used (pure-Keeps tt)
          (chain (info_from_name-Keeps lib infos _ _) λ _. warn_code-Keeps _ _ _))
        λ _. warn_unused_macros-Keeps infos ms

  warn_unused_lists-Keeps :
      (infos : IndexedVector ListInfo) (ls : List FalcoList)
      → Keeps (warn_unused_lists lib infos ls)
  unfolding warn_unused_lists
  warn_unused_lists-Keeps infos [] = pure-Keeps tt
  warn_unused_lists-Keeps infos (l ∷ ls) =
      chain
        (branch l.used (pure-Keeps tt)
          (chain (info_from_name-Keeps lib infos _ _) λ _. warn_code-Keeps _ _ _))
        λ _. warn_unused_lists-Keeps infos ls

  warn_unused-Keeps :
      {SinspVersion : Type 0} (col : Collector SinspVersion) → Keeps (warn_unused lib col)
  unfolding warn_unused
  warn_unused-Keeps col =
      chain (gets-Keeps _)
        λ out. chain (warn_unused_macros-Keeps _ _) λ _. warn_unused_lists-Keeps _ _

  finish_expansion-IsNumbered :
      {SinspVersion : Type 0} (col : Collector SinspVersion) (r : Outcome CompileState (Unit {0}))
      → IsNumbered (after r).rules
      → IsNumbered (after (finish_expansion lib col r)).rules
  unfolding finish_expansion
  finish_expansion-IsNumbered col (returned u s) h = (warn_unused-Keeps col).kept s h
  finish_expansion-IsNumbered col (raised err s) h = h
  finish_expansion-IsNumbered col (failed f s) h = h
  finish_expansion-IsNumbered col (unfinished s) h = h

  -- However a compilation ends, the rules of its output stand under their own names, and the id of
  -- each is its position.
  pub compile-IsNumbered :
      {SinspVersion : Type 0} (cfg : Configuration) (col : Collector SinspVersion)
      → IsNumbered (after (compile lib cfg col)).rules
  unfolding compile
  compile-IsNumbered cfg col =
      finish_expansion-IsNumbered col _ ((expand-Keeps col).kept _ empty_vector-IsNumbered)
