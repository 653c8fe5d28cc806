-- ===== src/Compiler/Ids.antt =====
-- userspace/engine/rule_loader_compiler.cpp: what the compilation of conditions and macros does
-- leaves the rules numbered by their positions.
use falco.Prelude.{
  ℕ, zero, suc, ◌+◌, String, ◌⊎◌, inl, inr, Bool, true, false, ◌&&◌, Option, none, some, List, [],
  ◌∷◌, if◌then◌else◌, nat_eq, string_eq, list_eq, get_elem?,
}
use falco.Filter.{Expr, Pos}
use falco.IndexedVector.{IndexedVector, at}
use falco.LoadInfo.{Context, FalcoSource, ErrorCode, WarningCode, MacroInfo}
use falco.LoadInfo.Contexts.{condition_context}
use falco.Rule.{FalcoRule}
use falco.Compiler.{FalcoMacro, Resolved, resolved, refused, crashed}
use falco.Compiler.Lists.{FalcoList}
use falco.Compiler.Infos.{
  FilterResult, compiled, not_compiled, CompilerLibraries, CompileState, Compiling, throw_code,
  throw_std, crash, gets, warn_code, put_lists, put_macros, put_rule, or_stop,
  err_is_unknown_type_or_field,
}
use falco.Compiler.Filters.{
  place_context, parsed, parse_condition, finish_resolution, resolve_condition, warn_all,
  warn_places, finish_filter, compile_condition, compile_each_macro, info_from_name, set_condition,
  resolve_macro, resolve_each_macro,
}
use falco.Compiler.Numbered.{IsNumbered, insert_with_id-IsNumbered}
use falco.Reader.{Outcome, returned, raised, failed, unfinished, after, continue_with, ◌>>=◌, pure}

-- An action that leaves the rules numbered, whatever it gives or throws.
pub record Keeps {A : Type 0} (m : Compiling A) : Type 0 where
  pub kept : (s : CompileState) → IsNumbered s.rules → IsNumbered (after (m s)).rules

continue_with-kept :
    {A B : Type 0} (r : Outcome CompileState A) (f : A → Compiling B)
    → IsNumbered (after r).rules
    → ((a : A) → Keeps (f a))
    → IsNumbered (after (continue_with r f)).rules
unfolding continue_with
continue_with-kept (returned a t) f p q = (q a).kept t p
continue_with-kept (raised err t) f p q = p
continue_with-kept (failed e t) f p q = p
continue_with-kept (unfinished t) f p q = p

pub chain :
    {A B : Type 0} {m : Compiling A} {f : A → Compiling B}
    → Keeps m
    → ((a : A) → Keeps (f a))
    → Keeps (m >>= f)
unfolding ◌>>=◌
chain {m} {f} p q = record { kept = λ s h. continue_with-kept (m s) f (p.kept s h) q }

pub branch :
    {A : Type 0} (b : Bool) {m k : Compiling A} → Keeps m → Keeps k → Keeps (if b then m else k)
branch true p q = p
branch false p q = q

pub choose :
    {A B : Type 0} (o : Option A) {m : Compiling B} {f : A → Compiling B}
    → Keeps m
    → ((a : A) → Keeps (f a))
    → Keeps (elim o as (λ x. Compiling B) [ none ↦ m | some a ↦ f a ])
choose none p q = p
choose (some a) p q = q a

pub pure-Keeps : {A : Type 0} (a : A) → Keeps (pure a)
unfolding pure
pure-Keeps a = record { kept = λ s h. h }

pub throw_code-Keeps :
    {A : Type 0} (ec : ErrorCode) (msg : String) (ctx : Context)
    → Keeps (throw_code {A = A} ec msg ctx)
unfolding throw_code
throw_code-Keeps ec msg ctx = record { kept = λ s h. h }

throw_std-Keeps : {A : Type 0} (what : String) → Keeps (throw_std {A = A} what)
unfolding throw_std
throw_std-Keeps what = record { kept = λ s h. h }

pub crash-Keeps : (A : Type 0) → Keeps (crash {A = A})
unfolding crash
crash-Keeps A = record { kept = λ s h. h }

pub gets-Keeps : {A : Type 0} (f : CompileState → A) → Keeps (gets f)
unfolding gets
gets-Keeps f = record { kept = λ s h. h }

pub warn_code-Keeps :
    (wc : WarningCode) (msg : String) (ctx : Context) → Keeps (warn_code wc msg ctx)
unfolding warn_code
warn_code-Keeps wc msg ctx = record { kept = λ s h. h }

pub put_lists-Keeps : (lists : IndexedVector FalcoList) → Keeps (put_lists lists)
unfolding put_lists
put_lists-Keeps lists = record { kept = λ s h. h }

put_macros-Keeps : (macros : IndexedVector FalcoMacro) → Keeps (put_macros macros)
unfolding put_macros
put_macros-Keeps macros = record { kept = λ s h. h }

pub put_rule-Keeps : (rule : FalcoRule) → Keeps (put_rule rule)
unfolding put_rule
put_rule-Keeps rule = record { kept = λ s h. insert_with_id-IsNumbered rule s.rules h }

or_stop-Keeps : {A : Type 0} (o : Option A) → Keeps (or_stop o)
unfolding or_stop
or_stop-Keeps none = record { kept = λ s h. h }
or_stop-Keeps (some a) = record { kept = λ s h. h }

module _ (lib : CompilerLibraries) where
  place_context-Keeps :
      (pos : Pos) (condition : String) (ctx : Context) → Keeps (place_context lib pos condition ctx)
  unfolding place_context
  place_context-Keeps pos condition ctx =
      let (idx, line, col) = lib.place pos in
      choose (condition_context idx line col condition ctx) (crash-Keeps _) (λ c. pure-Keeps c)

  parsed-Keeps :
      (r : (String × Pos) ⊎ Expr) (condition : String) (ctx : Context)
      → Keeps (parsed lib r condition ctx)
  unfolding parsed
  parsed-Keeps (inl (what, pos)) condition ctx =
      chain (place_context-Keeps pos condition ctx) λ _. throw_code-Keeps _ _ _
  parsed-Keeps (inr ast) condition ctx = pure-Keeps ast

  parse_condition-Keeps :
      (condition : String) (ctx : Context) → Keeps (parse_condition lib condition ctx)
  unfolding parse_condition
  parse_condition-Keeps condition ctx =
      chain (gets-Keeps _)
        λ lists. chain (or_stop-Keeps _) λ r. chain (put_lists-Keeps _) λ _. parsed-Keeps _ _ _

  finish_resolution-Keeps :
      (r : Resolved) (condition : String) (ctx : Context)
      → Keeps (finish_resolution lib r condition ctx)
  unfolding finish_resolution
  finish_resolution-Keeps (resolved ast macros) condition ctx =
      chain (put_macros-Keeps macros) λ _. pure-Keeps ast
  finish_resolution-Keeps (refused msg pos) condition ctx =
      chain (place_context-Keeps pos condition ctx) λ _. throw_code-Keeps _ _ _
  finish_resolution-Keeps crashed condition ctx = crash-Keeps _

  resolve_condition-Keeps :
      (infos : List MacroInfo) (ast : Expr) (condition : String) (visibility : ℕ) (ctx : Context)
      → Keeps (resolve_condition lib infos ast condition visibility ctx)
  unfolding resolve_condition
  resolve_condition-Keeps infos ast condition visibility ctx =
      chain (gets-Keeps _) λ _. chain (or_stop-Keeps _) λ r. finish_resolution-Keeps r condition ctx

  warn_all-Keeps : (ws : List WarningCode) (ctx : Context) → Keeps (warn_all lib ws ctx)
  unfolding warn_all
  warn_all-Keeps [] ctx = pure-Keeps tt
  warn_all-Keeps (w ∷ ws) ctx = chain (warn_code-Keeps w _ ctx) λ _. warn_all-Keeps ws ctx

  warn_places-Keeps :
      (ws : List (String × Pos)) (condition : String) (ctx : Context)
      → Keeps (warn_places lib ws condition ctx)
  unfolding warn_places
  warn_places-Keeps [] condition ctx = pure-Keeps tt
  warn_places-Keeps ((msg, pos) ∷ ws) condition ctx =
      chain (place_context-Keeps pos condition ctx)
        λ _. chain (warn_code-Keeps _ _ _) λ _. warn_places-Keeps ws condition ctx

  finish_filter-Keeps :
      (r : FilterResult) (condition : String) (ctx : Context) (allow : Bool)
      → Keeps (finish_filter lib r condition ctx allow)
  unfolding finish_filter
  finish_filter-Keeps (compiled filter warnings) condition ctx allow =
      chain (warn_places-Keeps warnings condition ctx) λ _. pure-Keeps _
  finish_filter-Keeps (not_compiled err pos) condition ctx allow =
      chain (place_context-Keeps pos condition ctx) λ c.
        branch (err_is_unknown_type_or_field err && allow)
          (chain (warn_code-Keeps _ _ _) λ _. pure-Keeps none) (throw_code-Keeps _ _ _)

  pub compile_condition-Keeps :
      (macros : List MacroInfo) (condition : String) (source : FalcoSource)
      (cond_ctx parent_ctx : Context) (allow : Bool)
      → Keeps (compile_condition lib macros condition source cond_ctx parent_ctx allow)
  unfolding compile_condition
  compile_condition-Keeps macros condition source cond_ctx parent_ctx allow =
      chain (parse_condition-Keeps condition cond_ctx) λ ast.
        chain (resolve_condition-Keeps macros ast condition _ parent_ctx) λ ast'.
          chain (warn_all-Keeps _ _) λ _. chain (finish_filter-Keeps _ _ _ _) λ _. pure-Keeps _

  pub compile_each_macro-Keeps : (infos : List MacroInfo) → Keeps (compile_each_macro lib infos)
  unfolding compile_each_macro
  compile_each_macro-Keeps [] = pure-Keeps tt
  compile_each_macro-Keeps (m ∷ infos) =
      chain (parse_condition-Keeps _ _) λ _.
        chain (gets-Keeps _) λ _. chain (put_macros-Keeps _) λ _. compile_each_macro-Keeps infos

  pub info_from_name-Keeps :
      {T : Type 0} (infos : IndexedVector T) (kind name : String)
      → Keeps (info_from_name lib infos kind name)
  unfolding info_from_name
  info_from_name-Keeps infos kind name =
      choose (at name infos) (throw_std-Keeps _) (λ info. pure-Keeps info)

  set_condition-Keeps : (i : ℕ) (ast : Expr) → Keeps (set_condition lib i ast)
  unfolding set_condition
  set_condition-Keeps i ast =
      chain (gets-Keeps _)
        λ out. choose (get_elem? out.m_entries i) (pure-Keeps tt) (λ m. put_macros-Keeps _)

  resolve_macro-Keeps :
      (infos : IndexedVector MacroInfo) (i : ℕ) (m : FalcoMacro)
      → Keeps (resolve_macro lib infos i m)
  unfolding resolve_macro
  resolve_macro-Keeps infos i m = chain (info_from_name-Keeps infos _ _) λ info.
      choose m.condition (crash-Keeps _)
        (λ ast. chain (resolve_condition-Keeps _ ast _ _ _) λ ast'. set_condition-Keeps i ast')

  pub resolve_each_macro-Keeps :
      (infos : IndexedVector MacroInfo) (left i : ℕ) → Keeps (resolve_each_macro lib infos left i)
  unfolding resolve_each_macro
  resolve_each_macro-Keeps infos zero i = pure-Keeps tt
  resolve_each_macro-Keeps infos (suc left) i = chain (gets-Keeps _) λ out.
      chain
        (choose (get_elem? out.m_entries i) (pure-Keeps tt) (λ m. resolve_macro-Keeps infos i m))
        λ _. resolve_each_macro-Keeps infos left (i + 1)
