-- ===== src/Filter.antt =====
-- The filter syntax trees of libsinsp as the visitors of userspace/engine see them: the node kinds
-- that `expr_visitor` names, with the members that the visitors read.
use falco.Prelude.{ℕ, String, List, nat_eq, string_eq, list_eq}

-- `ast::pos_info`, which is only copied.
abbrev pub Pos : Type 0
Pos = ℕ

mutual
  pub data Expr : Type 0 where
    and_expr : Exprs → Expr
    or_expr : Exprs → Expr
    not_expr : Expr → Expr
    identifier_expr : String → Pos → Expr
    value_expr : String → Expr
    list_expr : List String → Expr
    unary_check_expr : Expr → String → Expr
    binary_check_expr : Expr → String → Expr → Expr
    field_expr : (field arg : String) → Expr
    field_transformer_expr : String → Expr → Expr

  pub data Exprs : Type 0 where
    end : Exprs
    child : Expr → Exprs → Exprs
