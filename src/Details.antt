-- ===== src/Details.antt =====
-- userspace/engine/filter_details_resolver.cpp: the names that a filter uses.
pub mod Macros
use falco.Prelude.{
  String, ◌<>◌, Bool, true, false, not, ◌||◌, List, [], ◌∷◌, ◌++◌, if◌then◌else◌, ◌==◌, nat_eq,
  string_eq, list_eq, contains,
}
use falco.Filter.{
  Expr, and_expr, or_expr, not_expr, identifier_expr, value_expr, list_expr, unary_check_expr,
  binary_check_expr, field_expr, field_transformer_expr, Exprs, end, child,
}
use falco.RuleInfo.{is_empty_text}

-- The sets are lists in which each element stands once.
pub record FilterDetails : Type 0 where
  pub known_macros : List String
  pub known_lists : List String
  pub fields : List String
  pub macros : List String
  pub operators : List String
  pub lists : List String
  pub evtnames : List String
  pub transformers : List String

pub record DetailsVisitor : Type 0 where
  pub m_details : FilterDetails
  pub m_expect_list : Bool
  pub m_expect_evtname : Bool
  pub m_last_node_field_name : String

-- What a visit leaves, or the exception and what the visitor is then.
pub data Resolving : Type 0 where
  visited : DetailsVisitor → Resolving
  runtime_error : String → DetailsVisitor → Resolving

unfoldable pub reset : FilterDetails → FilterDetails
reset d = record d {
  fields = [];
  macros = [];
  operators = [];
  lists = [];
  evtnames = [];
  transformers = [];
}

unfoldable pub add_name : String → List String → List String
add_name s names = if contains names s then names else names ++ s ∷ []

-- The known or the unknown ones of the items are added.
unfoldable pub add_where : (is_known : Bool) → (known items names : List String) → List String
add_where is_known known [] names = names
add_where is_known known (item ∷ items) names = add_where is_known known items (
    if (if is_known then contains known item else not (contains known item))
    then add_name item names
    else names)

abbrev pub get_field_name : (name arg : String) → String
get_field_name name arg = if is_empty_text arg then name else name <> ("[" <> (arg <> "]"))

unfoldable pub after_visit : Resolving → (DetailsVisitor → Resolving) → Resolving
after_visit (visited v) k = k v
after_visit (runtime_error what v) k = runtime_error what v

unfoldable pub visit_list : List String → DetailsVisitor → DetailsVisitor
visit_list values v =
    let d = v.m_details in
    record v {
      m_details = record d {
        lists = if v.m_expect_list then add_where true d.known_lists values d.lists else d.lists;
        evtnames =
            if v.m_expect_evtname
            then add_where false d.known_lists values d.evtnames
            else d.evtnames;
      };
    }

unfoldable pub visit_identifier_expr : String → DetailsVisitor → DetailsVisitor
visit_identifier_expr identifier v =
    let d = v.m_details in
    record v {
      m_details = record d {
        macros =
            if contains d.known_macros identifier then add_name identifier d.macros else d.macros;
      };
    }

unfoldable pub visit_value : String → DetailsVisitor → DetailsVisitor
visit_value value v =
    let d = v.m_details in
    record v {
      m_details = record d {
        evtnames = if v.m_expect_evtname then add_name value d.evtnames else d.evtnames;
      };
    }

unfoldable pub visit_field : (field arg : String) → DetailsVisitor → DetailsVisitor
visit_field field arg v =
    let d = v.m_details in
    let name = get_field_name field arg in
    record v {
      m_details = record d { fields = add_name name d.fields };
      m_last_node_field_name = name;
    }

unfoldable pub visit_transformer : String → DetailsVisitor → DetailsVisitor
visit_transformer transformer v =
    let d = v.m_details in
    record v { m_details = record d { transformers = add_name transformer d.transformers } }

-- Before the left operand of a binary check.
unfoldable pub start_binary : DetailsVisitor → DetailsVisitor
start_binary v = record v {
  m_last_node_field_name = "";
  m_expect_evtname = false;
  m_expect_list = false;
}

-- The operator is added, and the right operand may have lists and names of events.
unfoldable pub expect_right : (op : String) → DetailsVisitor → DetailsVisitor
expect_right op v =
    let d = v.m_details in
    record v {
      m_details = record d { operators = add_name op d.operators };
      m_expect_list = true;
      m_expect_evtname =
          (v.m_last_node_field_name == "evt.type") || (v.m_last_node_field_name == "evt.asynctype");
    }

unfoldable pub end_binary : DetailsVisitor → DetailsVisitor
end_binary v = record v { m_expect_evtname = false; m_expect_list = false }

unfoldable pub start_unary : DetailsVisitor → DetailsVisitor
start_unary v = record v { m_last_node_field_name = "" }

unfoldable pub end_unary : (op : String) → DetailsVisitor → DetailsVisitor
end_unary op v =
    let d = v.m_details in
    record v {
      m_details = record d {
        fields = add_name v.m_last_node_field_name d.fields;
        operators = add_name op d.operators;
      };
    }

unfoldable pub need_field : (what : String) → DetailsVisitor → Resolving
need_field what v =
    if is_empty_text v.m_last_node_field_name then runtime_error what v else visited v

abbrev mutual
  pub visit_expr : Expr → DetailsVisitor → Resolving
  visit_expr (and_expr es) v = visit_exprs es v
  visit_expr (or_expr es) v = visit_exprs es v
  visit_expr (not_expr e) v = visit_expr e v
  visit_expr (identifier_expr identifier at) v = visited (visit_identifier_expr identifier v)
  visit_expr (value_expr value) v = visited (visit_value value v)
  visit_expr (list_expr values) v = visited (visit_list values v)
  visit_expr (unary_check_expr left op) v = after_visit (visit_expr left (start_unary v)) λ w.
      after_visit (need_field "can't find field info in unary check expression" w)
        λ u. visited (end_unary op u)
  visit_expr (binary_check_expr left op right) v =
      after_visit (visit_expr left (start_binary v)) λ w.
        after_visit (need_field "can't find field info in binary check expression" w)
          λ u. after_visit (visit_expr right (expect_right op u)) λ t. visited (end_binary t)
  visit_expr (field_expr field arg) v = visited (visit_field field arg v)
  visit_expr (field_transformer_expr transformer value) v =
      visit_expr value (visit_transformer transformer v)

  pub visit_exprs : Exprs → DetailsVisitor → Resolving
  visit_exprs end v = visited v
  visit_exprs (child e es) v = after_visit (visit_expr e v) λ w. visit_exprs es w

unfoldable pub run : Expr → FilterDetails → Resolving
run filter details = visit_expr filter (record {
  m_details = details;
  m_expect_list = false;
  m_expect_evtname = false;
  m_last_node_field_name = "";
})
