-- ===== src/Tests/DetailsTests.antt =====
-- Runs of userspace/engine/filter_details_resolver.cpp.
use falco.Prelude.{false, ◌≡◌, refl, ◌&&◌, ◌||◌, [], ◌∷◌, contains, string_eq, list_eq, ℕ_discrete}
use falco.Filter.{
  Expr, and_expr, child, end, identifier_expr, binary_check_expr, field_expr, list_expr,
}
use falco.Details.{
  FilterDetails, DetailsVisitor, visited, add_name, add_where, after_visit, visit_list,
  visit_identifier_expr, visit_field, start_binary, expect_right, end_binary, need_field, run,
}
use falco.Details.Macros.{mentions, contains-run}

abbrev spawned_open : Expr
spawned_open = and_expr (
    child (identifier_expr "spawned" 0) (
      child (binary_check_expr (field_expr "evt.type" "") "in" (list_expr ("open" ∷ "calls" ∷ [])))
        end))

abbrev known : FilterDetails
known = record {
  known_macros = "spawned" ∷ [];
  known_lists = "calls" ∷ [];
  fields = [];
  macros = [];
  operators = [];
  lists = [];
  evtnames = [];
  transformers = [];
}

abbrev found : DetailsVisitor
found = record {
  m_details = record known {
    fields = "evt.type" ∷ [];
    macros = "spawned" ∷ [];
    operators = "in" ∷ [];
    lists = "calls" ∷ [];
    evtnames = "open" ∷ [];
  };
  m_expect_list = false;
  m_expect_evtname = false;
  m_last_node_field_name = "evt.type";
}

finds : run spawned_open known ≡ visited found
unfolding run add_name add_where after_visit visit_list visit_identifier_expr visit_field
    start_binary expect_right end_binary need_field string_eq ℕ_discrete
finds = refl

contains-run_example : contains found.m_details.macros "spawned" ≡ (
    contains known.macros "spawned"
    || (contains known.known_macros "spawned" && mentions spawned_open "spawned"))
contains-run_example = contains-run spawned_open known found "spawned" finds
