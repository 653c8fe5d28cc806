-- ===== src/LoadInfo.antt =====
-- userspace/engine/rule_loader.h: what a rules file defines, and the result of loading it, with
-- userspace/engine/rule_loader.cpp; the codes are those of userspace/engine/falco_load_result.h and
-- the sources those of userspace/engine/falco_source.h.
pub mod Contexts
pub mod Snippet
pub mod Texts
pub mod Verbose
pub mod SnippetBounds
use falco.Prelude.{
  ℕ, ℤ, pos as non_negative, String, ◌<>◌, Bool, true, false, Option, none, some, List, [], ◌∷◌,
  ◌++◌, if◌then◌else◌,
}
use falco.ByteString.{codes, find_char}
use falco.IndexedVector.{IndexedVector}

pub data ItemType : Type 0 where
  value_for : ItemType
  exceptions_item : ItemType
  exception : ItemType
  exception_values : ItemType
  exception_value : ItemType
  rules_content : ItemType
  rules_content_item : ItemType
  required_engine_version_item : ItemType
  required_plugin_versions : ItemType
  required_plugin_versions_entry : ItemType
  required_plugin_versions_alternative : ItemType
  list : ItemType
  list_item : ItemType
  macro : ItemType
  macro_condition : ItemType
  rule : ItemType
  rule_condition : ItemType
  condition_expression : ItemType
  rule_output : ItemType
  rule_output_expression : ItemType
  rule_priority : ItemType
  override : ItemType
  extension_item : ItemType

pub record Position : Type 0 where
  pub pos : ℤ
  pub line : ℤ
  pub column : ℤ

pub record Location : Type 0 where
  pub name : String
  pub position : Position
  pub item_type : ItemType
  pub item_name : String

pub record Context : Type 0 where
  pub m_locs : List Location
  pub alt_content : String

-- `context(name)`: one location, which is the whole document.
abbrev pub new_context : String → Context
new_context name =
    let start : Position = record {
      pos = non_negative 0;
      line = non_negative 0;
      column = non_negative 0;
    } in
    let loc : Location = record {
      name = name;
      position = start;
      item_type = rules_content;
      item_name = "";
    } in
    record { m_locs = loc ∷ []; alt_content = "" }

pub data ErrorCode : Type 0 where
  load_err_file_read : ErrorCode
  load_err_yaml_parse : ErrorCode
  load_err_yaml_validate : ErrorCode
  load_err_compile_condition : ErrorCode
  load_err_compile_output : ErrorCode
  load_err_validate : ErrorCode
  load_err_extension : ErrorCode

pub data WarningCode : Type 0 where
  load_unknown_source : WarningCode
  load_unsafe_na_check : WarningCode
  load_no_evttype : WarningCode
  load_unknown_filter : WarningCode
  load_unused_macro : WarningCode
  load_unused_list : WarningCode
  load_unknown_item : WarningCode
  load_deprecated_item : WarningCode
  load_warning_extension : WarningCode
  load_append_no_values : WarningCode
  load_exception_name_not_unique : WarningCode
  load_invalid_macro_name : WarningCode
  load_invalid_list_name : WarningCode
  load_compile_condition : WarningCode

pub record Warning : Type 0 where
  pub wc : WarningCode
  pub msg : String
  pub ctx : Context

pub record RuleLoadException : Type 0 where
  pub ec : ErrorCode
  pub msg : String
  pub ctx : Context

-- `rule_loader::result`; its `error` has the fields of the exception.
pub record LoadResult : Type 0 where
  pub name : String
  pub success : Bool
  pub errors : List RuleLoadException
  pub warnings : List Warning

abbrev pub new_result : String → LoadResult
new_result name = record { name = name; success = true; errors = []; warnings = [] }

unfoldable pub add_error : ErrorCode → String → Context → LoadResult → LoadResult
add_error ec msg ctx res = record res {
  success = false;
  errors = res.errors ++ record { ec = ec; msg = msg; ctx = ctx } ∷ [];
}

unfoldable pub add_warning : WarningCode → String → Context → LoadResult → LoadResult
add_warning wc msg ctx res = record res {
  warnings = res.warnings ++ record { wc = wc; msg = msg; ctx = ctx } ∷ [];
}

-- `falco_source`: of its filter factory, whether a filter's text compiles and whether a field name
-- gives a filter check.
pub record FalcoSource : Type 0 where
  pub name : String
  pub compiles : String → Bool
  pub new_filtercheck : String → Bool

has_parenthesis : Option ℕ → Bool
has_parenthesis none = false
has_parenthesis (some i) = true

unfoldable pub is_valid_lhs_field : FalcoSource → String → Bool
unfolding has_parenthesis
is_valid_lhs_field source field =
    if has_parenthesis (find_char b'(' (codes field))
    then source.compiles (field <> " exists")
    else source.new_filtercheck field

pub record Configuration : Type 0 where
  pub content : String
  pub sources : IndexedVector FalcoSource
  pub name : String
  pub output_extra : String
  pub replace_output_container_info : Bool
  pub res : LoadResult

pub record EngineVersionInfo (SinspVersion : Type 0) : Type 0 where
  pub ctx : Context
  pub version : SinspVersion

pub record Requirement : Type 0 where
  pub name : String
  pub version : String

pub record PluginVersionInfo : Type 0 where
  pub ctx : Context
  pub alternatives : List Requirement

pub record ListInfo : Type 0 where
  pub ctx : Context
  pub index : ℕ
  pub visibility : ℕ
  pub name : String
  pub items : List String

pub record MacroInfo : Type 0 where
  pub ctx : Context
  pub cond_ctx : Context
  pub index : ℕ
  pub visibility : ℕ
  pub name : String
  pub cond : String

-- `rule_exception_info::entry`: a text, or a list of entries where `is_list` says so.
mutual
  pub data Entry : Type 0 where
    entry : (is_list : Bool) → (item : String) → Entries → Entry

  pub data Entries : Type 0 where
    no_entries : Entries
    push_front : Entry → Entries → Entries

abbrev pub to_list : Entries → List Entry
to_list no_entries = []
to_list (push_front e es) = e ∷ to_list es

abbrev pub to_entries : List Entry → Entries
to_entries [] = no_entries
to_entries (e ∷ es) = push_front e (to_entries es)

abbrev pub is_list : Entry → Bool
is_list (entry l s es) = l

abbrev pub item : Entry → String
item (entry l s es) = s

abbrev pub items : Entry → List Entry
items (entry l s es) = to_list es

-- `entry(s)`
abbrev pub item_entry : String → Entry
item_entry s = entry false s no_entries

-- `entry(v)`
abbrev pub list_entry : List Entry → Entry
list_entry es = entry true "" (to_entries es)
