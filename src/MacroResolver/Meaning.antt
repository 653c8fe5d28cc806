-- ===== src/MacroResolver/Meaning.antt =====
-- Resolving macros keeps the truth value of a filter, and a run that resolves nothing keeps the
-- filter itself.
use mathlib.Core.Option.{some-injective}
use mathlib.Core.Path.{ap₂}
use falco.Prelude.{
  ◌≤◌, String, ◌≡◌, refl, sym, ap, ◌∙◌, Bool, true, false, not, ◌&&◌, ◌||◌, some, List, [], ◌∷◌,
  arith, nat_eq, string_eq, list_eq, length, length-append,
}
use falco.Filter.{
  Expr, and_expr, or_expr, not_expr, identifier_expr, value_expr, list_expr, unary_check_expr,
  binary_check_expr, field_expr, field_transformer_expr, Exprs, end, child,
}
use falco.MacroResolver.{ValueInfo, MacroDefs, find_macro, Visitor, Resolver, non_empty, Run, run}
use falco.MacroResolver.Visits.{
  Visits, at_and, at_or, at_not, at_leaf, at_unknown, at_loop, at_macro, VisitsAll, no_child,
  one_child,
}
use falco.MacroResolver.Total.{run-RunVisits}

-- The value of a filter, from those of its checks and of its identifiers.
module _ (check : Expr → Bool) (named : String → Bool) where
  unfoldable mutual
    pub value : Expr → Bool
    value (and_expr es) = value_all es
    value (or_expr es) = value_any es
    value (not_expr e) = not (value e)
    value (identifier_expr name pos) = named name
    value (value_expr s) = check (value_expr s)
    value (list_expr ss) = check (list_expr ss)
    value (unary_check_expr l op) = check (unary_check_expr l op)
    value (binary_check_expr l op r) = check (binary_check_expr l op r)
    value (field_expr f arg) = check (field_expr f arg)
    value (field_transformer_expr t e) = check (field_transformer_expr t e)

    pub value_all : Exprs → Bool
    value_all end = true
    value_all (child e es) = value e && value_all es

    pub value_any : Exprs → Bool
    value_any end = false
    value_any (child e es) = value e || value_any es

  -- Each defined macro has the value of its tree.
  abbrev pub IsModel : MacroDefs → Type 0
  IsModel defs =
      (name : String) (m : Expr) → find_macro name defs ≡ some (some m) → named name ≡ value m

  mutual
    unfolding value

    Visits-value :
        {defs : MacroDefs} {e e' : Expr} {v v' : Visitor}
        → IsModel defs
        → Visits defs e v e' v'
        → value e' ≡ value e
    Visits-value k (at_and d) = VisitsAll-value_all k d
    Visits-value k (at_or d) = VisitsAll-value_any k d
    Visits-value k (at_not d) = ap not (Visits-value k d)
    Visits-value k (at_leaf e v h) = refl
    Visits-value k (at_unknown name pos v h) = refl
    Visits-value k (at_loop name pos v m h q) = refl
    Visits-value k (at_macro name pos m h q d) = Visits-value k d ∙ sym (k name m h)

    VisitsAll-value_all :
        {defs : MacroDefs} {es es' : Exprs} {v v' : Visitor}
        → IsModel defs
        → VisitsAll defs es v es' v'
        → value_all es' ≡ value_all es
    VisitsAll-value_all k (no_child v) = refl
    VisitsAll-value_all k (one_child d ds) = ap₂ ◌&&◌ (Visits-value k d) (VisitsAll-value_all k ds)

    VisitsAll-value_any :
        {defs : MacroDefs} {es es' : Exprs} {v v' : Visitor}
        → IsModel defs
        → VisitsAll defs es v es' v'
        → value_any es' ≡ value_any es
    VisitsAll-value_any k (no_child v) = refl
    VisitsAll-value_any k (one_child d ds) = ap₂ ◌||◌ (Visits-value k d) (VisitsAll-value_any k ds)

  -- The resolved filter has the value of the filter wherever every defined macro has that of its
  -- tree.
  pub run-value :
      (s : Resolver) (filter : Expr) (out : Run)
      → run s filter ≡ some out
      → IsModel s.m_macros
      → value out.1 ≡ value filter
  run-value s filter out h k =
      let r = run-RunVisits s filter in
      ap (λ (o : Run). value o.1) (some-injective out _ (sym h ∙ r.gives)) ∙ Visits-value k r.visits

mutual
  Visits-grows :
      {defs : MacroDefs} {e e' : Expr} {v v' : Visitor}
      → Visits defs e v e' v'
      → length v.m_resolved_macros ≤ length v'.m_resolved_macros
  Visits-grows (at_and d) = VisitsAll-grows d
  Visits-grows (at_or d) = VisitsAll-grows d
  Visits-grows (at_not d) = Visits-grows d
  Visits-grows (at_leaf e v h) = omega arith
  Visits-grows (at_unknown name pos v h) = omega arith
  Visits-grows (at_loop name pos v m h q) = omega arith
  Visits-grows (at_macro {v' = w} name pos m h q d) =
      omega (arith, Visits-grows d, length-append w.m_resolved_macros ((name, pos) ∷ []))

  VisitsAll-grows :
      {defs : MacroDefs} {es es' : Exprs} {v v' : Visitor}
      → VisitsAll defs es v es' v'
      → length v.m_resolved_macros ≤ length v'.m_resolved_macros
  VisitsAll-grows (no_child v) = omega arith
  VisitsAll-grows (one_child d ds) = omega (arith, Visits-grows d, VisitsAll-grows ds)

abbrev SameCount : Visitor → Visitor → Type 0
SameCount v v' = length v'.m_resolved_macros ≤ length v.m_resolved_macros

mutual
  Visits-same :
      {defs : MacroDefs} {e e' : Expr} {v v' : Visitor}
      → Visits defs e v e' v'
      → SameCount v v'
      → e' ≡ e
  Visits-same (at_and d) c = ap and_expr (VisitsAll-same d c)
  Visits-same (at_or d) c = ap or_expr (VisitsAll-same d c)
  Visits-same (at_not d) c = ap not_expr (Visits-same d c)
  Visits-same (at_leaf e v h) c = refl
  Visits-same (at_unknown name pos v h) c = refl
  Visits-same (at_loop name pos v m h q) c = refl
  Visits-same (at_macro {v' = w} name pos m h q d) c =
      absurd
        (omega (arith, c, Visits-grows d, length-append w.m_resolved_macros ((name, pos) ∷ [])))

  VisitsAll-same :
      {defs : MacroDefs} {es es' : Exprs} {v v' : Visitor}
      → VisitsAll defs es v es' v'
      → SameCount v v'
      → es' ≡ es
  VisitsAll-same (no_child v) c = refl
  VisitsAll-same (one_child d ds) c =
      ap₂ child (Visits-same d (omega (arith, c, VisitsAll-grows ds)))
        (VisitsAll-same ds (omega (arith, c, Visits-grows d)))

none_resolved : (l : List ValueInfo) → non_empty l ≡ false → length l ≤ 0
none_resolved [] h = omega arith
none_resolved (x ∷ l) h = cc

-- A run that returns false leaves the filter as it was.
pub run-false :
    (s : Resolver) (filter : Expr) (out : Run)
    → run s filter ≡ some out
    → out.2 ≡ false
    → out.1 ≡ filter
run-false s filter out h f =
    let r = run-RunVisits s filter in
    let e = some-injective out _ (sym h ∙ r.gives) in
    ap (λ (o : Run). o.1) e
    ∙ Visits-same r.visits
        (none_resolved r.visitor.m_resolved_macros (ap (λ (o : Run). o.2) (sym e) ∙ f))

-- A run ends, whatever the macros: references that form a loop do not keep it going.
pub run_total : (s : Resolver) (filter : Expr) → (out : Run) × (run s filter ≡ some out)
run_total s filter = let r = run-RunVisits s filter in (_, r.gives)
