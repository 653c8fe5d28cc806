-- ===== src/MacroResolver/Total.antt =====
-- The visits end: each macro is entered at most once on a path.
use falco.Prelude.{
  ℕ, zero, suc, ◌+◌, ◌≤◌, ◌<◌, String, ◌≡◌, refl, inl, inr, false, Option, none, some, List, [],
  ◌∷◌, ◌++◌, arith, if◌then◌else◌, Bool-cases, nat_eq, string_eq, list_eq, contains,
  contains-append, length, ◌>>=◌,
}
use falco.Filter.{
  Pos, Expr, and_expr, or_expr, not_expr, identifier_expr, value_expr, list_expr, unary_check_expr,
  binary_check_expr, field_expr, field_transformer_expr, Exprs, end, child,
}
use falco.MacroResolver.{
  MacroDefs, find_macro, Visitor, Visit, stays, replaced, visit_unknown, visit_loop, finish_macro,
  visit_macro, visit_identifier, visit_node, visit_children, visit, Resolver, fresh_visitor,
  non_empty, finish_run, run,
}
use falco.MacroResolver.Visits.{
  IsUndefined, enter, Visits, at_and, at_or, at_not, at_leaf, at_unknown, at_loop, at_macro,
  VisitsAll, no_child, one_child, Visits-path,
}

-- The definitions whose name is not on the path.
available : MacroDefs → List String → ℕ
available [] path = 0
available ((k, m) ∷ defs) path = (if contains path k then 0 else 1) + available defs path

available-le-length : (defs : MacroDefs) (path : List String) → available defs path ≤ length defs
unfolding available
available-le-length [] path = omega arith
available-le-length ((k, m) ∷ defs) path = ground (arith, available-le-length defs path)

available_mono :
    (defs : MacroDefs) (path : List String) (name : String)
    → available defs (path ++ name ∷ []) ≤ available defs path
unfolding available
available_mono [] path name = omega arith
available_mono ((k, m) ∷ defs) path name =
    ground (arith, available_mono defs path name, contains-append path (name ∷ []) k)

available-lt :
    (defs : MacroDefs) (path : List String) (name : String) (m : Option Expr)
    → find_macro name defs ≡ some m
    → contains path name ≡ false
    → available defs (path ++ name ∷ []) < available defs path
unfolding available find_macro
available-lt [] path name m h q = cc
available-lt ((k, w) ∷ defs) path name m h q = ground (
  arith,
  available-lt defs path name m,
  available_mono defs path name,
  contains-append path (name ∷ []) k,
)

-- A visit that ends, with its derivation.
pub record Visited (defs : MacroDefs) (o : Option Visit) (e : Expr) (v : Visitor) : Type 0 where
  pub visit_result : Visit
  pub gives : o ≡ some visit_result
  pub visits : Visits defs e v (replaced visit_result) visit_result.visitor

record VisitedAll (defs : MacroDefs) (o : Option (Exprs × Visitor)) (es : Exprs) (v : Visitor)
    : Type 0 where
  exprs : Exprs
  visitor : Visitor
  gives : o ≡ some (exprs, visitor)
  visits : VisitsAll defs es v exprs visitor

module _ (defs : MacroDefs) (clone : Expr → Visitor → Option Visit) (fuel : ℕ)
    (rec : (e : Expr) (v : Visitor)
      → available defs v.m_macros_path < fuel
      → Visited defs (clone e v) e v) where
  unknown-Visited :
      (name : String) (pos : Pos) (v : Visitor)
      → IsUndefined (find_macro name defs)
      → Visited defs (visit_unknown name pos v) (identifier_expr name pos) v
  unfolding visit_unknown
  unknown-Visited name pos v h = record {
    visit_result = _;
    gives = refl;
    visits = at_unknown name pos v h;
  }

  macro-Visited :
      (name : String) (pos : Pos) (m : Expr) (v : Visitor)
      → find_macro name defs ≡ some (some m)
      → available defs v.m_macros_path ≤ fuel
      → Visited defs (visit_macro defs clone name pos m v) (identifier_expr name pos) v
  unfolding visit_macro visit_loop finish_macro
  macro-Visited name pos m v e short = elim (Bool-cases (contains v.m_macros_path name)) [
    | inl t ↦
        rw (t, visit_macro)
          (record { visit_result = _; gives = refl; visits = at_loop name pos v m e t })
    | inr t ↦
        let r : Visited defs (clone m (enter name v)) m (enter name v) =
          rec m (enter name v)
            (omega (arith, available-lt defs v.m_macros_path name (some m) e t, short)) in
        rw (t, visit_macro)
          (rw (r.gives, ◌>>=◌)
            (record {
              visit_result = finish_macro name pos r.visit_result;
              gives = refl;
              visits = at_macro name pos m e t r.visits;
            }))
  ]

  identifier-Visited :
      (name : String) (pos : Pos) (v : Visitor)
      → available defs v.m_macros_path ≤ fuel
      → Visited defs (visit_identifier defs clone name pos v) (identifier_expr name pos) v
  unfolding visit_identifier
  identifier-Visited name pos v short = go (find_macro name defs) refl
    where
      go :
          (o : Option (Option Expr))
          → find_macro name defs ≡ o
          → Visited defs (visit_identifier defs clone name pos v) (identifier_expr name pos) v
      go none e = rw (e, visit_identifier) (unknown-Visited name pos v (rw e tt))
      go (some none) e = rw (e, visit_identifier) (unknown-Visited name pos v (rw e tt))
      go (some (some m)) e = rw (e, visit_identifier) (macro-Visited name pos m v e short)

  mutual
    unfolding visit_node

    node-Visited :
        (e : Expr) (v : Visitor)
        → available defs v.m_macros_path ≤ fuel
        → Visited defs (visit_node defs clone e v) e v
    node-Visited (and_expr es) v short =
        let r = children-Visited es v short in
        record {
          visit_result = stays (and_expr r.exprs) r.visitor;
          gives = rw (r.gives, ◌>>=◌) refl;
          visits = at_and r.visits;
        }
    node-Visited (or_expr es) v short =
        let r = children-Visited es v short in
        record {
          visit_result = stays (or_expr r.exprs) r.visitor;
          gives = rw (r.gives, ◌>>=◌) refl;
          visits = at_or r.visits;
        }
    node-Visited (not_expr e) v short =
        let r = node-Visited e v short in
        record {
          visit_result = stays (not_expr (replaced r.visit_result)) r.visit_result.visitor;
          gives = rw (r.gives, ◌>>=◌) refl;
          visits = at_not r.visits;
        }
    node-Visited (identifier_expr name pos) v short = identifier-Visited name pos v short
    node-Visited (value_expr s) v short = record {
      visit_result = _;
      gives = refl;
      visits = at_leaf (value_expr s) v tt;
    }
    node-Visited (list_expr ss) v short = record {
      visit_result = _;
      gives = refl;
      visits = at_leaf (list_expr ss) v tt;
    }
    node-Visited (unary_check_expr l op) v short = record {
      visit_result = _;
      gives = refl;
      visits = at_leaf (unary_check_expr l op) v tt;
    }
    node-Visited (binary_check_expr l op r) v short = record {
      visit_result = _;
      gives = refl;
      visits = at_leaf (binary_check_expr l op r) v tt;
    }
    node-Visited (field_expr f arg) v short = record {
      visit_result = _;
      gives = refl;
      visits = at_leaf (field_expr f arg) v tt;
    }
    node-Visited (field_transformer_expr t e) v short = record {
      visit_result = _;
      gives = refl;
      visits = at_leaf (field_transformer_expr t e) v tt;
    }

    children-Visited :
        (es : Exprs) (v : Visitor)
        → available defs v.m_macros_path ≤ fuel
        → VisitedAll defs (visit_children defs clone es v) es v
    children-Visited end v short = record {
      exprs = end;
      visitor = v;
      gives = refl;
      visits = no_child v;
    }
    children-Visited (child e es) v short =
        let r = node-Visited e v short in
        let rs = children-Visited es r.visit_result.visitor (rw (Visits-path r.visits) short) in
        record {
          exprs = child (replaced r.visit_result) rs.exprs;
          visitor = rs.visitor;
          gives = rw (r.gives, ◌>>=◌) (rw (rs.gives, ◌>>=◌) refl);
          visits = one_child r.visits rs.visits;
        }

visit-Visited :
    (fuel : ℕ) (defs : MacroDefs) (e : Expr) (v : Visitor)
    → available defs v.m_macros_path < fuel
    → Visited defs (visit fuel defs e v) e v
unfolding visit
visit-Visited zero defs e v h = absurd (omega arith)
visit-Visited (suc fuel) defs e v h =
    node-Visited defs (visit fuel defs) fuel (visit-Visited fuel defs) e v (omega arith)

-- The run of a resolver on a filter, with its derivation.
pub record RunVisits (s : Resolver) (filter : Expr) : Type 0 where
  pub visitor : Visitor
  pub resolved : Expr
  pub visits : Visits s.m_macros filter fresh_visitor resolved visitor
  pub gives :
      run s filter
      ≡ some (
        record s {
          m_errors = visitor.m_errors;
          m_unknown_macros = visitor.m_unknown_macros;
          m_resolved_macros = visitor.m_resolved_macros;
        },
        resolved,
        non_empty visitor.m_resolved_macros,
      )

pub run-RunVisits : (s : Resolver) (filter : Expr) → RunVisits s filter
unfolding run finish_run
run-RunVisits s filter =
    let r =
      visit-Visited (suc (length s.m_macros)) s.m_macros filter fresh_visitor
        (omega (arith, available-le-length s.m_macros [])) in
    record {
      visitor = r.visit_result.visitor;
      resolved = replaced r.visit_result;
      visits = r.visits;
      gives = rw (r.gives, ◌>>=◌) refl;
    }
