-- ===== src/MacroResolver/Unknown.antt =====
-- The unknown macros that a run reports are the references left in the filter.
use mathlib.Core.List.{append-nil, append_assoc}
use mathlib.Core.Option.{some-injective}
use falco.Prelude.{
  ◌≡◌, refl, sym, ap, ◌∙◌, subst, some, List, [], ◌∷◌, ◌++◌, nat_eq, string_eq, list_eq,
}
use falco.Filter.{
  Expr, and_expr, or_expr, not_expr, identifier_expr, value_expr, list_expr, unary_check_expr,
  binary_check_expr, field_expr, field_transformer_expr, Exprs, end, child,
}
use falco.MacroResolver.{ValueInfo, MacroDefs, Visitor, Resolver, Run, run}
use falco.MacroResolver.Visits.{
  IsLeaf, Visits, at_and, at_or, at_not, at_leaf, at_unknown, at_loop, at_macro, VisitsAll,
  no_child, one_child,
}
use falco.MacroResolver.Total.{run-RunVisits}

-- The references of a filter where a visit looks for them, from left to right.
unfoldable mutual
  pub references : Expr → List ValueInfo
  references (and_expr es) = references_all es
  references (or_expr es) = references_all es
  references (not_expr e) = references e
  references (identifier_expr name pos) = (name, pos) ∷ []
  references (value_expr s) = []
  references (list_expr ss) = []
  references (unary_check_expr l op) = []
  references (binary_check_expr l op r) = []
  references (field_expr f arg) = []
  references (field_transformer_expr t e) = []

  pub references_all : Exprs → List ValueInfo
  references_all end = []
  references_all (child e es) = references e ++ references_all es

pub leaf-references : (e : Expr) → IsLeaf e → references e ≡ []
unfolding references
leaf-references (value_expr s) h = refl
leaf-references (list_expr ss) h = refl
leaf-references (unary_check_expr l op) h = refl
leaf-references (binary_check_expr l op r) h = refl
leaf-references (field_expr f arg) h = refl
leaf-references (field_transformer_expr t e) h = refl
leaf-references (and_expr es) h = absurd h
leaf-references (or_expr es) h = absurd h
leaf-references (not_expr e) h = absurd h
leaf-references (identifier_expr name pos) h = absurd h

mutual
  unfolding references

  Visits-unknown :
      {defs : MacroDefs} {e e' : Expr} {v v' : Visitor}
      → Visits defs e v e' v'
      → v'.m_unknown_macros ≡ v.m_unknown_macros ++ references e'
  Visits-unknown (at_and d) = VisitsAll-unknown d
  Visits-unknown (at_or d) = VisitsAll-unknown d
  Visits-unknown (at_not d) = Visits-unknown d
  Visits-unknown (at_leaf e v h) = sym (
      ap (λ (l : List ValueInfo). v.m_unknown_macros ++ l) (leaf-references e h)
      ∙ append-nil v.m_unknown_macros)
  Visits-unknown (at_unknown name pos v h) = refl
  Visits-unknown (at_loop name pos v m h q) = refl
  Visits-unknown (at_macro name pos m h q d) = Visits-unknown d

  VisitsAll-unknown :
      {defs : MacroDefs} {es es' : Exprs} {v v' : Visitor}
      → VisitsAll defs es v es' v'
      → v'.m_unknown_macros ≡ v.m_unknown_macros ++ references_all es'
  VisitsAll-unknown (no_child v) = sym (append-nil v.m_unknown_macros)
  VisitsAll-unknown (one_child {e' = e'} {es' = es'} {v = v} d ds) =
      VisitsAll-unknown ds
      ∙ ap (λ (l : List ValueInfo). l ++ references_all es') (Visits-unknown d)
      ∙ append_assoc v.m_unknown_macros (references e') (references_all es')

-- The unknown macros that a run reports are exactly the references left in the filter, with their
-- positions and in their order.
pub run-unknown :
    (s : Resolver) (filter : Expr) (out : Run)
    → run s filter ≡ some out
    → out.0.m_unknown_macros ≡ references out.1
run-unknown s filter out h =
    let r = run-RunVisits s filter in
    let e = some-injective out _ (sym h ∙ r.gives) in
    subst (λ (o : Run). o.0.m_unknown_macros ≡ references o.1) (sym e) (Visits-unknown r.visits)
