-- ===== src/Compiler/References.antt =====
-- userspace/engine/rule_loader_compiler.cpp: a filter is accepted only without macro references.
use falco.Prelude.{
  ℕ, ◌≡◌, refl, sym, ◌∙◌, inl, inr, none, some, List, [], ◌∷◌, Option-cases, nat_eq, string_eq,
  list_eq,
}
use falco.Filter.{Expr}
use falco.IndexedVector.{IndexedVector}
use falco.LoadInfo.{MacroInfo}
use falco.MacroResolver.{Resolver, Run, ValueInfo, clear}
use falco.MacroResolver.Meaning.{run_total}
use falco.MacroResolver.Unknown.{references, run-unknown}
use falco.Compiler.{
  FalcoMacro, Resolved, resolved, refused, crashed, set_macros, report, finish_macros,
  resolve_macros,
}

report-none :
    (errors unknown : List ValueInfo)
    → report errors unknown ≡ none
    → (errors ≡ []) × (unknown ≡ [])
unfolding report
report-none ((msg, pos) ∷ errors) unknown h = cc
report-none [] ((name, pos) ∷ unknown) h = cc
report-none [] [] h = (refl, refl)

-- The macro references of the filter, where there is one.
abbrev pub left_references : Resolved → List ValueInfo
left_references (resolved ast macros) = references ast
left_references (refused msg pos) = []
left_references crashed = []

finish_macros-references :
    (macros : IndexedVector FalcoMacro) (out : Run)
    → out.0.m_unknown_macros ≡ references out.1
    → left_references (finish_macros macros out) ≡ []
unfolding finish_macros
finish_macros-references macros out u =
    elim (Option-cases (report out.0.m_errors out.0.m_unknown_macros)) [
      | inr (e, q) ↦ rw (q, finish_macros) refl
      | inl q ↦
          rw (q, finish_macros) (sym u ∙ (report-none out.0.m_errors out.0.m_unknown_macros q).1)
    ]

-- The resolution gives a result, and where that is a filter, no macro reference is left in it.
pub resolve_macros-references :
    (resolver : Resolver) (infos : List MacroInfo) (macros : IndexedVector FalcoMacro) (ast : Expr)
    (visibility : ℕ)
    → (out : Resolved) × (resolve_macros resolver infos macros ast visibility ≡ some out)
      × (left_references out ≡ [])
unfolding resolve_macros
resolve_macros-references resolver infos macros ast visibility =
    elim (Option-cases (set_macros infos macros visibility (clear resolver))) [
      | inl e ↦ (crashed, rw (e, resolve_macros) refl, refl)
      | inr (r, e) ↦
          let (out, q) = run_total r ast in
          (
            finish_macros macros out,
            rw (e, q, resolve_macros) refl,
            finish_macros-references macros out (run-unknown r ast out q),
          )
    ]
