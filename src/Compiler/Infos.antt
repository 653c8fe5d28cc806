-- ===== src/Compiler/Infos.antt =====
-- userspace/engine/rule_loader_compiler.cpp: what the compilation of macros and rules works
-- with: the other libraries, and its actions on its output and on the configuration.
use falco.Prelude.{
  ℕ, String, ◌⊎◌, Bool, true, false, ◌||◌, Option, none, some, List, [], ◌∷◌, if◌then◌else◌, nat_eq,
  string_eq, list_eq,
}
use falco.ByteString.{codes, find}
use falco.Filter.{Expr, Pos}
use falco.IndexedVector.{IndexedVector}
use falco.LoadInfo.{Context, Configuration, FalcoSource, ErrorCode, WarningCode, add_warning}
use falco.Rule.{FalcoRule}
use falco.Compiler.{FalcoMacro}
use falco.Compiler.ListReferences.{resolve_list}
use falco.Compiler.Lists.{FalcoList, insert_with_id}
use falco.Reader.{std_exception, unknown_exception, returned, raised, failed, unfinished, Reading}

-- A compiled filter, by its address, with the compiler's warnings; or the message and the place of its
-- exception.
pub data FilterResult : Type 0 where
  compiled : (filter : ℕ) → (warnings : List (String × Pos)) → FilterResult
  not_compiled : (what : String) → Pos → FilterResult

-- What the compiler uses beside its own code: the parser, the formatters and the filter compiler of
-- libsinsp, and the warnings that another resolver finds in a filter.
pub record CompilerLibraries : Type 0 where
  pub parse : String → (String × Pos) ⊎ Expr
  -- The offset, the line and the column of a place.
  pub place : Pos → ℕ × ℕ × ℕ
  pub list_operators : List String
  pub replace : (text from to : String) → String
  pub format_error : FalcoSource → String → Option String
  pub compile_filter : FalcoSource → Expr → FilterResult
  pub warnings_of : Expr → List WarningCode
  pub ppm_event_codes : Expr → List ℕ
  pub syscall_source : String

pub record CompileState : Type 0 where
  pub cfg : Configuration
  pub lists : IndexedVector FalcoList
  pub macros : IndexedVector FalcoMacro
  pub rules : IndexedVector FalcoRule

abbrev pub Compiling : Type 0 → Type 0
Compiling A = Reading CompileState A

unfoldable pub throw_code : {A : Type 0} → ErrorCode → String → Context → Compiling A
throw_code ec msg ctx s = raised (record { ec = ec; msg = msg; ctx = ctx }) s

unfoldable pub throw_std : {A : Type 0} → String → Compiling A
throw_std what s = failed (std_exception what) s

-- The use of a null pointer, of which nothing is known.
unfoldable pub crash : {A : Type 0} → Compiling A
crash s = failed unknown_exception s

unfoldable pub gets : {A : Type 0} → (CompileState → A) → Compiling A
gets f s = returned (f s) s

unfoldable pub warn_code : WarningCode → String → Context → Compiling (Unit {0})
warn_code wc msg ctx s =
    returned tt (record s { cfg = record s.cfg { res = add_warning wc msg ctx s.cfg.res } })

unfoldable pub put_lists : IndexedVector FalcoList → Compiling (Unit {0})
put_lists lists s = returned tt (record s { lists = lists })

unfoldable pub put_macros : IndexedVector FalcoMacro → Compiling (Unit {0})
put_macros macros s = returned tt (record s { macros = macros })

unfoldable pub put_rule : FalcoRule → Compiling (Unit {0})
put_rule rule s =
    returned tt
      (record s { rules = insert_with_id (λ i r. record r { id = i }) rule rule.name s.rules })

-- The references to each list are replaced, and the lists that were referred to are marked; `none`
-- is the end of the fuel, for a list without a name.
unfoldable pub resolve_lists : List FalcoList → String → Option (String × List FalcoList)
resolve_lists [] condition = some (condition, [])
resolve_lists (l ∷ ls) condition = elim (resolve_list condition l.name l.items) [
  | none ↦ none
  | some (condition', used) ↦ elim (resolve_lists ls condition') [
    | none ↦ none
    | some (condition'', ls') ↦
        some (condition'', (if used then record l { used = true } else l) ∷ ls')
  ]
]

unfoldable pub or_stop : {A : Type 0} → Option A → Compiling A
or_stop none s = unfinished s
or_stop (some a) s = returned a s

-- `text.find(part) != std::string::npos`
unfoldable pub has_text : (part text : String) → Bool
has_text part text = elim (find (codes part) (codes text)) [ none ↦ false | some i ↦ true ]

unfoldable pub err_is_unknown_type_or_field : String → Bool
err_is_unknown_type_or_field err =
    has_text "nonexistent field" err
    || (has_text "invalid formatting token" err || has_text "unknown event type" err)
