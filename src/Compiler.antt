-- ===== src/Compiler.antt =====
-- userspace/engine/rule_loader_compiler.cpp: the macros of a filter are resolved against those that
-- were seen before; the compiled macros are those of userspace/engine/falco_rule.h.
pub mod References
pub mod Conditions
pub mod ListReferences
pub mod ListTermination
pub mod Lists
pub mod Infos
pub mod Filters
pub mod Rules
pub mod Numbered
pub mod Ids
pub mod Output
pub mod InRange
use falco.Prelude.{
  ℕ, zero, suc, ◌+◌, ◌-◌, ◌*◌, ◌/◌, ◌%◌, ◌^◌, ◌≤◌, ◌<◌, String, ◌<>◌, ◌≡◌, refl, sym, ap, ◌∙◌,
  subst, ◌≢◌, ◌↔◌, ◌⊎◌, inl, inr, ite, Bool, true, false, not, ◌&&◌, ◌||◌, Option, none, some, List,
  [], ◌∷◌, ◌++◌, map, arith, dec_lt, dec_le, ℕ_discrete, ltb, leb, if◌then◌else◌, ltb→lt, lt→ltb,
  leb→le, le→leb, tests, Bool-cases, Option-cases, Eq, ◌==◌, ==_self, ==_ne, ==_cases, nat_eq,
  string_eq, list_eq, contains, contains-append, nil-ne-cons, cons-ne-nil, length, get_elem?, set,
  replicate, take, drop, length-append, length-set, get_elem?-set_self, get_elem?-set_ne,
  get_elem?-append_lt, get_elem?-append_end, get_elem?-eq_some, get_elem?-lt, length-map,
  insert_sorted, erase, contains-insert_sorted, IsNodup, contains-erase, erase-IsNodup,
  append-IsNodup, IsIncreasing, insert_sorted-IsIncreasing, erase-IsIncreasing,
  IsIncreasing-IsNodup, ◌>>=◌, >>=-eq-some, take-append-drop, All, All-append, All-append_right,
  All-append_left, Member,
}
use falco.Filter.{Pos, Expr}
use falco.IndexedVector.{IndexedVector, at, update}
use falco.LoadInfo.{MacroInfo}
use falco.MacroResolver.{Resolver, Run, ValueInfo, run, set_macro, clear}

pub record FalcoMacro : Type 0 where
  pub used : Bool
  pub id : ℕ
  pub name : String
  pub condition : Option Expr

-- The filter and the macros; or the message and the place of the exception; or a null pointer was
-- used, for an info whose macro is not there.
pub data Resolved : Type 0 where
  resolved : Expr → IndexedVector FalcoMacro → Resolved
  refused : String → Pos → Resolved
  crashed : Resolved

-- The infos that were seen before are set, with the trees of their macros.
unfoldable pub set_macros :
    List MacroInfo → IndexedVector FalcoMacro → (visibility : ℕ) → Resolver → Option Resolver
set_macros [] macros visibility r = some r
set_macros (m ∷ infos) macros visibility r =
    if ltb m.index visibility
    then elim (at m.name macros) [
      | none ↦ none
      | some macro ↦ set_macros infos macros visibility (set_macro m.name macro.condition r)
    ]
    else set_macros infos macros visibility r

unfoldable pub mark_used : List ValueInfo → IndexedVector FalcoMacro → IndexedVector FalcoMacro
mark_used [] macros = macros
mark_used ((name, pos) ∷ rest) macros = mark_used rest (elim (at name macros) [
  | none ↦ macros
  | some macro ↦ update name (record macro { used = true }) macros
])

-- The first error is reported, or else the first unknown macro.
unfoldable pub report : List ValueInfo → List ValueInfo → Option ValueInfo
report ((msg, pos) ∷ errors) unknown = some (msg, pos)
report [] ((name, pos) ∷ unknown) = some ("Undefined macro '" <> (name <> "' used in filter."), pos)
report [] [] = none

unfoldable pub finish_macros : IndexedVector FalcoMacro → Run → Resolved
finish_macros macros (r, ast, found) = elim (report r.m_errors r.m_unknown_macros) [
  | some (msg, pos) ↦ refused msg pos
  | none ↦ resolved ast (mark_used r.m_resolved_macros macros)
]

-- `none` is the end of the resolver's fuel.
unfoldable pub resolve_macros :
    Resolver → List MacroInfo → IndexedVector FalcoMacro → Expr → (visibility : ℕ) → Option Resolved
resolve_macros resolver infos macros ast visibility =
    elim (set_macros infos macros visibility (clear resolver)) [
      | none ↦ some crashed
      | some r ↦ elim (run r ast) [ none ↦ none | some out ↦ some (finish_macros macros out) ]
    ]
