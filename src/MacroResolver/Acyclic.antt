-- ===== src/MacroResolver/Acyclic.antt =====
-- Macros that stand in no loop are resolved without an error.
use mathlib.Core.Option.{some-injective}
use falco.Prelude.{
  ℕ, ◌<◌, String, ◌≡◌, refl, sym, ◌∙◌, subst, inl, inr, true, false, some, List, [], ◌∷◌, ◌++◌,
  arith, ◌==◌, ==_cases, nat_eq, string_eq, list_eq, contains, contains-append, All, All-append,
  All-append_right, All-append_left,
}
use falco.Filter.{Expr, Exprs}
use falco.MacroResolver.{ValueInfo, MacroDefs, find_macro, Visitor, Resolver, Run, run}
use falco.MacroResolver.Visits.{
  IsUndefined, Visits, at_and, at_or, at_not, at_leaf, at_unknown, at_loop, at_macro, VisitsAll,
  no_child, one_child, Visits-path,
}
use falco.MacroResolver.Total.{run-RunVisits}
use falco.MacroResolver.Unknown.{references, references_all, leaf-references}

-- The name refers to a tree.
abbrev pub IsDefined : MacroDefs → String → Type 0
IsDefined defs name = (m : Expr) × (find_macro name defs ≡ some (some m))

module _ (defs : MacroDefs) (rank : String → ℕ) where
  -- Every defined macro in the filter ranks below all that are on the path.
  abbrev BelowPath : List String → ValueInfo → Type 0
  BelowPath path (name, pos) =
      IsDefined defs name → (q : String) → contains path q ≡ true → rank name < rank q

  -- Every defined macro ranks above the defined macros in its tree.
  abbrev pub IsRanked : Type 0
  IsRanked =
      (name : String) (m : Expr)
      → find_macro name defs ≡ some (some m)
      → All (λ ((n, pos) : ValueInfo). IsDefined defs n → rank n < rank name) (references m)

  below_enter :
      (path : List String) (name : String) (l : List ValueInfo)
      → ((q : String) → contains path q ≡ true → rank name < rank q)
      → All (λ ((n, pos) : ValueInfo). IsDefined defs n → rank n < rank name) l
      → All (BelowPath (path ++ name ∷ [])) l
  below_enter path name [] above h = tt
  below_enter path name ((n, pos) ∷ l) above h = (
    λ d q c. elim (==_cases q name) [
      | inl (t, e) ↦ rw e (h.0 d)
      | inr (t, e) ↦
          let below : rank n < rank name = h.0 d in omega (arith, below, above q (on_path q t c))
    ],
    below_enter path name l above h.1,
  )
    where
      on_path :
          (q : String)
          → (q == name) ≡ false
          → contains (path ++ name ∷ []) q ≡ true
          → contains path q ≡ true
      on_path q t c = ground (arith, contains-append path (name ∷ []) q)

  -- What a visit below the path does: no error, and no defined macro left.
  abbrev Clean : Visitor → Visitor → List ValueInfo → Type 0
  Clean v v' left =
      (v'.m_errors ≡ v.m_errors)
      × All (λ ((n, pos) : ValueInfo). IsUndefined (find_macro n defs)) left

  mutual
    unfolding references

    Visits-Clean :
        {e e' : Expr} {v v' : Visitor}
        → IsRanked
        → Visits defs e v e' v'
        → All (BelowPath v.m_macros_path) (references e)
        → Clean v v' (references e')
    Visits-Clean k (at_and d) h = VisitsAll-Clean k d h
    Visits-Clean k (at_or d) h = VisitsAll-Clean k d h
    Visits-Clean k (at_not d) h = Visits-Clean k d h
    Visits-Clean k (at_leaf e v p) h = (refl, rw (leaf-references e p) tt)
    Visits-Clean k (at_unknown name pos v u) h = (refl, (u, tt))
    Visits-Clean k (at_loop name pos v m e q) h =
        let p : rank name < rank name = h.0 (m, e) name q in absurd (omega (arith, p))
    Visits-Clean k (at_macro {v = v} name pos m e q d) h =
        Visits-Clean k d (below_enter v.m_macros_path name (references m) (h.0 (m, e)) (k name m e))

    VisitsAll-Clean :
        {es es' : Exprs} {v v' : Visitor}
        → IsRanked
        → VisitsAll defs es v es' v'
        → All (BelowPath v.m_macros_path) (references_all es)
        → Clean v v' (references_all es')
    VisitsAll-Clean k (no_child v) h = (refl, tt)
    VisitsAll-Clean k (one_child {e} {e' = e'} {es} {es' = es'} d ds) h =
        let first =
          Visits-Clean k d (All-append_left (BelowPath _) (references e) (references_all es) h) in
        let later = VisitsAll-Clean k ds (
          rw (Visits-path d)
            (All-append_right (BelowPath _) (references e) (references_all es) h)) in
        (later.0 ∙ first.0, All-append _ (references e') (references_all es') first.1 later.1)

below_nothing :
    (defs : MacroDefs) (rank : String → ℕ) (l : List ValueInfo) → All (BelowPath defs rank []) l
below_nothing defs rank [] = tt
below_nothing defs rank ((n, pos) ∷ l) = (λ d q c. cc, below_nothing defs rank l)

-- Where the defined macros can be ranked, each above those in its tree, a run reports no error and
-- every reference left in the filter is to a name with no tree.
pub run-acyclic :
    (rank : String → ℕ) (s : Resolver) (filter : Expr) (out : Run)
    → IsRanked s.m_macros rank
    → run s filter ≡ some out
    → (out.0.m_errors ≡ [])
      × All (λ ((n, pos) : ValueInfo). IsUndefined (find_macro n s.m_macros)) (references out.1)
run-acyclic rank s filter out k h =
    let r = run-RunVisits s filter in
    let e = some-injective out _ (sym h ∙ r.gives) in
    subst
      (λ (o : Run).
        (o.0.m_errors ≡ [])
        × All (λ ((n, pos) : ValueInfo). IsUndefined (find_macro n s.m_macros)) (references o.1))
      (sym e)
      (Visits-Clean s.m_macros rank k r.visits (below_nothing s.m_macros rank (references filter)))
