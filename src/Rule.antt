-- ===== src/Rule.antt =====
-- userspace/engine/falco_rule.h and the priorities of falco_common.h.
use falco.Prelude.{ℕ, String, Option, List, nat_eq, string_eq, list_eq}
use falco.Filter.{Expr}

-- `falco_common::priority_type`, with the numbers of the enum.
abbrev pub Priority : Type 0
Priority = ℕ

-- `filter` is the pointer to the compiled filter, which libsinsp owns.
pub record FalcoRule : Type 0 where
  pub id : ℕ
  pub source : String
  pub name : String
  pub description : String
  pub output : String
  pub tags : List String
  pub exception_fields : List String
  pub priority : Priority
  pub condition : Option Expr
  pub filter : Option ℕ
