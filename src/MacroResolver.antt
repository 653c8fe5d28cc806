-- ===== src/MacroResolver.antt =====
-- userspace/engine/filter_macro_resolver.{h,cpp}: macro references are replaced by clones of the
-- macros' trees.
pub mod Visits
pub mod Total
pub mod Meaning
pub mod Unknown
pub mod Acyclic
use falco.Prelude.{
  ℕ, zero, suc, ◌+◌, ◌-◌, ◌*◌, ◌/◌, ◌%◌, ◌^◌, ◌≤◌, ◌<◌, String, ◌<>◌, ◌≡◌, refl, sym, ap, ◌∙◌,
  subst, ◌≢◌, ◌↔◌, ◌⊎◌, inl, inr, ite, Bool, true, false, not, ◌&&◌, ◌||◌, Option, none, some, List,
  [], ◌∷◌, ◌++◌, map, arith, dec_lt, dec_le, ℕ_discrete, ltb, leb, if◌then◌else◌, ltb→lt, lt→ltb,
  leb→le, le→leb, tests, Bool-cases, Option-cases, Eq, ◌==◌, ==_self, ==_ne, ==_cases, nat_eq,
  string_eq, list_eq, contains, contains-append, nil-ne-cons, cons-ne-nil, length, get_elem?, set,
  replicate, take, drop, length-append, length-set, get_elem?-set_self, get_elem?-set_ne,
  get_elem?-append_lt, get_elem?-append_end, get_elem?-eq_some, get_elem?-lt, length-map, ◌>>=◌,
  >>=-eq-some, take-append-drop, All, All-append, All-append_right, All-append_left, Member,
}
use falco.Filter.{
  Pos, Expr, and_expr, or_expr, not_expr, identifier_expr, value_expr, list_expr, unary_check_expr,
  binary_check_expr, field_expr, field_transformer_expr, Exprs, end, child,
}

abbrev pub ValueInfo : Type 0
ValueInfo = String × Pos

-- `macro_defs`; `none` is a null pointer.
abbrev pub MacroDefs : Type 0
MacroDefs = List (String × Option Expr)

unfoldable pub find_macro : String → MacroDefs → Option (Option Expr)
find_macro k [] = none
find_macro k ((j, m) ∷ defs) = if k == j then some m else find_macro k defs

-- `m_macros[name] = macro`
unfoldable pub assign_macro : String → Option Expr → MacroDefs → MacroDefs
assign_macro k m [] = (k, m) ∷ []
assign_macro k m ((j, w) ∷ defs) = if k == j then (k, m) ∷ defs else (j, w) ∷ assign_macro k m defs

-- The lists of the visitor; its `m_node_substitute` is part of what a visit gives.
pub record Visitor : Type 0 where
  pub m_macros_path : List String
  pub m_errors : List ValueInfo
  pub m_unknown_macros : List ValueInfo
  pub m_resolved_macros : List ValueInfo

-- The visited node, with the children that were replaced in it, and `m_node_substitute`.
pub record Visit : Type 0 where
  pub node : Expr
  pub m_node_substitute : Option Expr
  pub visitor : Visitor

-- `m_node_substitute = nullptr`
abbrev pub stays : Expr → Visitor → Visit
stays e v = record { node = e; m_node_substitute = none; visitor = v }

abbrev pub unchanged : Expr → Visitor → Option Visit
unchanged e v = some (stays e v)

abbrev pub or_else : Option Expr → Expr → Expr
or_else none e = e
or_else (some s) e = s

-- What the parent keeps in the place of the visited node.
abbrev pub replaced : Visit → Expr
replaced r = or_else r.m_node_substitute r.node

abbrev pub loop_message : String → String
loop_message name = "reference loop in macro '" <> (name <> "'")

-- The macro is unknown: nothing is substituted.
unfoldable pub visit_unknown : String → Pos → Visitor → Option Visit
visit_unknown name pos v =
    unchanged (identifier_expr name pos)
      (record v { m_unknown_macros = v.m_unknown_macros ++ (name, pos) ∷ [] })

-- The macro is on the path already: an error, and the reference stays.
unfoldable pub visit_loop : String → Pos → Visitor → Option Visit
visit_loop name pos v = unchanged (identifier_expr name pos) (record v {
  m_errors = v.m_errors ++ (loop_message name, pos) ∷ [];
  m_unknown_macros = v.m_unknown_macros ++ (name, pos) ∷ [];
})

abbrev pub pop_back : List String → List String
pop_back [] = []
pop_back (x ∷ []) = []
pop_back (x ∷ y ∷ xs) = x ∷ pop_back (y ∷ xs)

-- The clone of the macro's tree has been visited.
unfoldable pub finish_macro : String → Pos → Visit → Visit
finish_macro name pos r = record {
  node = identifier_expr name pos;
  m_node_substitute = some (replaced r);
  visitor = record r.visitor {
    m_resolved_macros = r.visitor.m_resolved_macros ++ (name, pos) ∷ [];
    m_macros_path = pop_back r.visitor.m_macros_path;
  };
}

module _ (m_macros : MacroDefs) (visit_clone : Expr → Visitor → Option Visit) where
  unfoldable pub visit_macro : String → Pos → Expr → Visitor → Option Visit
  visit_macro name pos macro v = if contains v.m_macros_path name then visit_loop name pos v else do
    r ← visit_clone macro (record v { m_macros_path = v.m_macros_path ++ name ∷ [] })
    some (finish_macro name pos r)

  unfoldable pub visit_identifier : String → Pos → Visitor → Option Visit
  visit_identifier name pos v = elim (find_macro name m_macros) [
    | none ↦ visit_unknown name pos v
    | some none ↦ visit_unknown name pos v
    | some (some macro) ↦ visit_macro name pos macro v
  ]

  unfoldable mutual
    pub visit_node : Expr → Visitor → Option Visit
    visit_node (and_expr es) v = do (es', v') ← visit_children es v; unchanged (and_expr es') v'
    visit_node (or_expr es) v = do (es', v') ← visit_children es v; unchanged (or_expr es') v'
    visit_node (not_expr e) v = do r ← visit_node e v; unchanged (not_expr (replaced r)) r.visitor
    visit_node (identifier_expr name pos) v = visit_identifier name pos v
    visit_node (value_expr s) v = unchanged (value_expr s) v
    visit_node (list_expr ss) v = unchanged (list_expr ss) v
    visit_node (unary_check_expr l op) v = unchanged (unary_check_expr l op) v
    visit_node (binary_check_expr l op r) v = unchanged (binary_check_expr l op r) v
    visit_node (field_expr f arg) v = unchanged (field_expr f arg) v
    visit_node (field_transformer_expr t e) v = unchanged (field_transformer_expr t e) v

    pub visit_children : Exprs → Visitor → Option (Exprs × Visitor)
    visit_children end v = some (end, v)
    visit_children (child e es) v = do
      r ← visit_node e v
      (es', v') ← visit_children es r.visitor
      some (child (replaced r) es', v')

-- The fuel bounds how deep macros stand in macros; `none` is the end of the fuel.
unfoldable pub visit : ℕ → MacroDefs → Expr → Visitor → Option Visit
visit zero m_macros e v = none
visit (suc fuel) m_macros e v = visit_node m_macros (visit fuel m_macros) e v

pub record Resolver : Type 0 where
  pub m_errors : List ValueInfo
  pub m_unknown_macros : List ValueInfo
  pub m_resolved_macros : List ValueInfo
  pub m_macros : MacroDefs

abbrev pub fresh_visitor : Visitor
fresh_visitor = record {
  m_macros_path = [];
  m_errors = [];
  m_unknown_macros = [];
  m_resolved_macros = [];
}

abbrev pub non_empty : List ValueInfo → Bool
non_empty [] = false
non_empty (_ ∷ _) = true

-- The new resolver, the filter in the place of the given one, and whether a macro was resolved.
abbrev pub Run : Type 0
Run = Resolver × Expr × Bool

unfoldable pub finish_run : Resolver → Visit → Run
finish_run s r = (
  record s {
    m_errors = r.visitor.m_errors;
    m_unknown_macros = r.visitor.m_unknown_macros;
    m_resolved_macros = r.visitor.m_resolved_macros;
  },
  replaced r,
  non_empty r.visitor.m_resolved_macros,
)

-- One level of fuel for each macro, and one for the filter.
unfoldable pub run : Resolver → Expr → Option Run
run s filter = do
  r ← visit (suc (length s.m_macros)) s.m_macros filter fresh_visitor
  some (finish_run s r)

unfoldable pub set_macro : String → Option Expr → Resolver → Resolver
set_macro name macro s = record s { m_macros = assign_macro name macro s.m_macros }

unfoldable pub clear : Resolver → Resolver
clear s = record { m_errors = []; m_unknown_macros = []; m_resolved_macros = []; m_macros = [] }
