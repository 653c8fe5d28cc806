-- ===== src/Compiler/Filters.antt =====
-- userspace/engine/rule_loader_compiler.cpp: conditions are parsed, their macros resolved, and their
-- filters compiled.
use falco.Prelude.{
  ℕ, zero, suc, ◌+◌, ◌-◌, ◌^◌, String, ◌<>◌, ◌⊎◌, inl, inr, Bool, false, ◌&&◌, Option, none, some,
  List, [], ◌∷◌, if◌then◌else◌, nat_eq, string_eq, list_eq, length, get_elem?, set,
}
use falco.Filter.{Expr, Pos}
use falco.IndexedVector.{IndexedVector, at}
use falco.LoadInfo.{
  Context, Configuration, FalcoSource, load_err_compile_condition, load_err_validate, WarningCode,
  load_unknown_filter, load_compile_condition, MacroInfo,
}
use falco.LoadInfo.Contexts.{condition_context}
use falco.RuleInfo.{is_empty_text}
use falco.MacroResolver.{Resolver}
use falco.Collector.{Collector}
use falco.Compiler.{FalcoMacro, Resolved, resolved, refused, crashed, resolve_macros}
use falco.Compiler.Lists.{insert_with_id}
use falco.Compiler.Infos.{
  FilterResult, compiled, not_compiled, CompilerLibraries, Compiling, throw_code, throw_std, crash,
  gets, warn_code, put_lists, put_macros, resolve_lists, or_stop, has_text,
  err_is_unknown_type_or_field,
}
use falco.Reader.{◌>>=◌, ◌>>◌, pure}

abbrev no_resolver : Resolver
no_resolver = record { m_errors = []; m_unknown_macros = []; m_resolved_macros = []; m_macros = [] }

module _ (lib : CompilerLibraries) where
  -- The context of a place in a condition.
  unfoldable pub place_context : Pos → (condition : String) → Context → Compiling Context
  place_context pos condition ctx =
      let (idx, line, col) = lib.place pos in
      elim (condition_context idx line col condition ctx) [ none ↦ crash | some c ↦ pure c ]

  unfoldable pub parsed : (String × Pos) ⊎ Expr → (condition : String) → Context → Compiling Expr
  parsed (inr ast) condition ctx = pure ast
  parsed (inl (what, pos)) condition ctx = do
    parsectx ← place_context pos condition ctx
    throw_code load_err_compile_condition what parsectx

  unfoldable pub parse_condition : (condition : String) → Context → Compiling Expr
  parse_condition condition ctx = do
    lists ← gets (λ s. s.lists)
    (condition', entries) ← or_stop (resolve_lists lists.m_entries condition)
    put_lists (record lists { m_entries = entries })
    parsed (lib.parse condition') condition' ctx

  unfoldable pub apply_output_substitutions : Configuration → String → String
  apply_output_substitutions cfg out =
      let extra = if is_empty_text cfg.output_extra then "" else " " <> cfg.output_extra in
      if has_text "%container.info" out
      then if cfg.replace_output_container_info
        then lib.replace out "%container.info" cfg.output_extra
        else lib.replace out "%container.info"
            "container_id=%container.id container_name=%container.name"
          <> extra
      else out <> extra

  -- What the resolution of macros gives: the filter, with the macros marked, or the exception.
  unfoldable pub finish_resolution : Resolved → (condition : String) → Context → Compiling Expr
  finish_resolution (resolved ast macros) condition ctx = do put_macros macros; pure ast
  finish_resolution (refused msg pos) condition ctx = do
    cond_ctx ← place_context pos condition ctx
    throw_code load_err_validate msg cond_ctx
  finish_resolution crashed condition ctx = crash

  -- The resolver is cleared before each run, and so starts empty.
  unfoldable pub resolve_condition :
      List MacroInfo → Expr → (condition : String) → (visibility : ℕ) → Context → Compiling Expr
  resolve_condition infos ast condition visibility ctx = do
    macros ← gets (λ s. s.macros)
    r ← or_stop (resolve_macros no_resolver infos macros ast visibility)
    finish_resolution r condition ctx

  unfoldable pub warn_all : List WarningCode → Context → Compiling (Unit {0})
  warn_all [] ctx = pure tt
  warn_all (w ∷ ws) ctx = do warn_code w "" ctx; warn_all ws ctx

  unfoldable pub warn_places :
      List (String × Pos) → (condition : String) → Context → Compiling (Unit {0})
  warn_places [] condition cond_ctx = pure tt
  warn_places ((msg, pos) ∷ ws) condition cond_ctx = do
    ctx ← place_context pos condition cond_ctx
    warn_code load_compile_condition msg ctx
    warn_places ws condition cond_ctx

  -- The compiled filter, or nothing where an unknown field is allowed.
  unfoldable pub finish_filter :
      FilterResult
      → (condition : String) → Context
      → (allow_unknown_fields : Bool) → Compiling (Option ℕ)
  finish_filter (compiled filter warnings) condition cond_ctx allow = do
    warn_places warnings condition cond_ctx
    pure (some filter)
  finish_filter (not_compiled err pos) condition cond_ctx allow = do
    ctx ← place_context pos condition cond_ctx
    if err_is_unknown_type_or_field err && allow
        then (do warn_code load_unknown_filter err ctx; pure none)
        else throw_code load_err_compile_condition err ctx

  -- The filter's tree, and the compiled filter where the condition is not to be skipped. Every macro
  -- is visible: no number is as large as `MAX_VISIBILITY`.
  unfoldable pub compile_condition :
      List MacroInfo
      → (condition : String) → FalcoSource
      → (cond_ctx parent_ctx : Context) → (allow_unknown_fields : Bool)
      → Compiling (Expr × Option ℕ)
  compile_condition macros condition source cond_ctx parent_ctx allow = do
    ast ← parse_condition condition cond_ctx
    ast' ← resolve_condition macros ast condition (2 ^ 32 - 1) parent_ctx
    warn_all (lib.warnings_of ast') parent_ctx
    filter ← finish_filter (lib.compile_filter source ast') condition cond_ctx allow
    pure (ast', filter)

  -- The macros are compiled without regard to one another.
  unfoldable pub compile_each_macro : List MacroInfo → Compiling (Unit {0})
  compile_each_macro [] = pure tt
  compile_each_macro (m ∷ infos) = do
    ast ← parse_condition m.cond m.cond_ctx
    out ← gets (λ s. s.macros)
    put_macros (
        insert_with_id (λ i e. record e { id = i })
          (record { used = false; id = 0; name = m.name; condition = some ast }) m.name out)
    compile_each_macro infos

  -- `macro_info_from_name`
  unfoldable pub info_from_name :
      {T : Type 0} → IndexedVector T → (kind name : String) → Compiling T
  info_from_name infos kind name = elim (at name infos) [
    | none ↦ throw_std ("can't find internal " <> (kind <> (" info at name: " <> name)))
    | some info ↦ pure info
  ]

  unfoldable pub set_condition : ℕ → Expr → Compiling (Unit {0})
  set_condition i ast = do
    out ← gets (λ s. s.macros)
    elim (get_elem? out.m_entries i) [
      | none ↦ pure tt
      | some m ↦
          put_macros
            (record out { m_entries = set out.m_entries i (record m { condition = some ast }) })
    ]

  -- The macro of a number, of which the tree was given by the parser.
  unfoldable pub resolve_macro : IndexedVector MacroInfo → ℕ → FalcoMacro → Compiling (Unit {0})
  resolve_macro infos i m = do
    info ← info_from_name infos "macro" m.name
    elim m.condition [
      | none ↦ crash
      | some ast ↦ do
        ast' ← resolve_condition infos.m_entries ast info.cond info.visibility info.ctx
        set_condition i ast'
    ]

  -- Then the macros in each are resolved against those that were seen before, in the order of their
  -- numbers.
  unfoldable pub resolve_each_macro : IndexedVector MacroInfo → (left i : ℕ) → Compiling (Unit {0})
  resolve_each_macro infos zero i = pure tt
  resolve_each_macro infos (suc left) i = do
    out ← gets (λ s. s.macros)
    elim (get_elem? out.m_entries i) [ none ↦ pure tt | some m ↦ resolve_macro infos i m ]
    resolve_each_macro infos left (i + 1)

  unfoldable pub compile_macros_infos :
      {SinspVersion : Type 0} → Collector SinspVersion → Compiling (Unit {0})
  compile_macros_infos col = do
    compile_each_macro col.m_macro_infos.m_entries
    out ← gets (λ s. s.macros)
    resolve_each_macro col.m_macro_infos (length out.m_entries) 0
