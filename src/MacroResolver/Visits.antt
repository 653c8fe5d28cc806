-- ===== src/MacroResolver/Visits.antt =====
-- A visit of the macro resolver as a derivation, with what the parent keeps of the visited node.
use falco.Prelude.{
  String, ◌≡◌, refl, ap, ◌∙◌, true, false, Option, none, some, List, [], ◌∷◌, ◌++◌, nat_eq,
  string_eq, list_eq, contains,
}
use falco.Filter.{
  Pos, Expr, and_expr, or_expr, not_expr, identifier_expr, value_expr, list_expr, unary_check_expr,
  binary_check_expr, field_expr, field_transformer_expr, Exprs, end, child,
}
use falco.MacroResolver.{MacroDefs, find_macro, Visitor, loop_message, pop_back}

abbrev pub IsLeaf : Expr → Type 0
IsLeaf (value_expr s) = Unit
IsLeaf (list_expr ss) = Unit
IsLeaf (unary_check_expr l op) = Unit
IsLeaf (binary_check_expr l op r) = Unit
IsLeaf (field_expr f arg) = Unit
IsLeaf (field_transformer_expr t e) = Unit
IsLeaf _ = ⊥

-- No tree is defined for the name: it is absent, or a null pointer.
abbrev pub IsUndefined : Option (Option Expr) → Type 0
IsUndefined none = Unit
IsUndefined (some none) = Unit
IsUndefined (some (some e)) = ⊥

abbrev pub add_unknown : String → Pos → Visitor → Visitor
add_unknown name pos v = record v { m_unknown_macros = v.m_unknown_macros ++ (name, pos) ∷ [] }

abbrev pub add_loop : String → Pos → Visitor → Visitor
add_loop name pos v = record v {
  m_errors = v.m_errors ++ (loop_message name, pos) ∷ [];
  m_unknown_macros = v.m_unknown_macros ++ (name, pos) ∷ [];
}

abbrev pub enter : String → Visitor → Visitor
enter name v = record v { m_macros_path = v.m_macros_path ++ name ∷ [] }

abbrev pub leave : String → Pos → Visitor → Visitor
leave name pos v = record v {
  m_resolved_macros = v.m_resolved_macros ++ (name, pos) ∷ [];
  m_macros_path = pop_back v.m_macros_path;
}

mutual
  pub data Visits (defs : MacroDefs) : Expr → Visitor → Expr → Visitor → Type 0 where
    at_and :
        {es es' : Exprs} {v v' : Visitor}
        → VisitsAll defs es v es' v'
        → Visits defs (and_expr es) v (and_expr es') v'
    at_or :
        {es es' : Exprs} {v v' : Visitor}
        → VisitsAll defs es v es' v'
        → Visits defs (or_expr es) v (or_expr es') v'
    at_not :
        {e e' : Expr} {v v' : Visitor}
        → Visits defs e v e' v'
        → Visits defs (not_expr e) v (not_expr e') v'
    at_leaf : (e : Expr) (v : Visitor) → IsLeaf e → Visits defs e v e v
    at_unknown :
        (name : String) (pos : Pos) (v : Visitor)
        → IsUndefined (find_macro name defs)
        → Visits defs
            (identifier_expr name pos)
            v
            (identifier_expr name pos)
            (add_unknown name pos v)
    at_loop :
        (name : String) (pos : Pos) (v : Visitor) (m : Expr)
        → find_macro name defs ≡ some (some m)
        → contains v.m_macros_path name ≡ true
        → Visits defs (identifier_expr name pos) v (identifier_expr name pos) (add_loop name pos v)
    at_macro :
        {v v' : Visitor} {e' : Expr} (name : String) (pos : Pos) (m : Expr)
        → find_macro name defs ≡ some (some m)
        → contains v.m_macros_path name ≡ false
        → Visits defs m (enter name v) e' v'
        → Visits defs (identifier_expr name pos) v e' (leave name pos v')

  pub data VisitsAll (defs : MacroDefs) : Exprs → Visitor → Exprs → Visitor → Type 0 where
    no_child : (v : Visitor) → VisitsAll defs end v end v
    one_child :
        {e e' : Expr} {es es' : Exprs} {v w v' : Visitor}
        → Visits defs e v e' w
        → VisitsAll defs es w es' v'
        → VisitsAll defs (child e es) v (child e' es') v'

pop_back-append : (path : List String) (name : String) → pop_back (path ++ name ∷ []) ≡ path
pop_back-append [] name = refl
pop_back-append (x ∷ []) name = refl
pop_back-append (x ∷ y ∷ path) name =
    ap (λ (p : List String). x ∷ p) (pop_back-append (y ∷ path) name)

-- A visit leaves the path as it was.
mutual
  pub Visits-path :
      {defs : MacroDefs} {e e' : Expr} {v v' : Visitor}
      → Visits defs e v e' v'
      → v'.m_macros_path ≡ v.m_macros_path
  Visits-path (at_and d) = VisitsAll-path d
  Visits-path (at_or d) = VisitsAll-path d
  Visits-path (at_not d) = Visits-path d
  Visits-path (at_leaf e v h) = refl
  Visits-path (at_unknown name pos v h) = refl
  Visits-path (at_loop name pos v m h q) = refl
  Visits-path (at_macro {v} name pos m h q d) =
      ap pop_back (Visits-path d) ∙ pop_back-append v.m_macros_path name

  pub VisitsAll-path :
      {defs : MacroDefs} {es es' : Exprs} {v v' : Visitor}
      → VisitsAll defs es v es' v'
      → v'.m_macros_path ≡ v.m_macros_path
  VisitsAll-path (no_child v) = refl
  VisitsAll-path (one_child d ds) = VisitsAll-path ds ∙ Visits-path d
