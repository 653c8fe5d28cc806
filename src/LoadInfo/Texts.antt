-- ===== src/LoadInfo/Texts.antt =====
-- userspace/engine/falco_load_result.cpp and userspace/engine/rule_loader.cpp: the texts of codes,
-- contexts and results.
use falco.Prelude.{
  ◌+◌, ℤ, pos as non_negative, negsuc, String, ◌<>◌, Bool, true, false, not, Option, none, some,
  List, [], ◌∷◌, ◌++◌, map, if◌then◌else◌, length, to_string,
}
use falco.ByteString.{Bytes, codes}
use falco.RuleInfo.{is_empty_text}
use falco.LoadInfo
use falco.LoadInfo.{
  ItemType, Location, Context, ErrorCode, WarningCode, Warning, RuleLoadException, LoadResult,
}
use falco.LoadInfo.Snippet.{Snippet, snippet_text, no_location, out_of_range, snippet}

abbrev pub error_code_str : ErrorCode → String
error_code_str LoadInfo.load_err_file_read = "LOAD_ERR_FILE_READ"
error_code_str LoadInfo.load_err_yaml_parse = "LOAD_ERR_YAML_PARSE"
error_code_str LoadInfo.load_err_yaml_validate = "LOAD_ERR_YAML_VALIDATE"
error_code_str LoadInfo.load_err_compile_condition = "LOAD_ERR_COMPILE_CONDITION"
error_code_str LoadInfo.load_err_compile_output = "LOAD_ERR_COMPILE_OUTPUT"
error_code_str LoadInfo.load_err_validate = "LOAD_ERR_VALIDATE"
error_code_str LoadInfo.load_err_extension = "LOAD_ERR_EXTENSION"

abbrev pub error_str : ErrorCode → String
error_str LoadInfo.load_err_file_read = "File read error"
error_str LoadInfo.load_err_yaml_parse = "YAML parse error"
error_str LoadInfo.load_err_yaml_validate = "Error validating internal structure of YAML file"
error_str LoadInfo.load_err_compile_condition = "Error compiling condition"
error_str LoadInfo.load_err_compile_output = "Error compiling output"
error_str LoadInfo.load_err_validate = "Error validating rule/macro/list/exception objects"
error_str LoadInfo.load_err_extension = "Error in extension item"

-- As the code has it, with the short texts.
abbrev pub error_desc : ErrorCode → String
error_desc ec = error_str ec

abbrev pub warning_code_str : WarningCode → String
warning_code_str LoadInfo.load_unknown_source = "LOAD_UNKNOWN_SOURCE"
warning_code_str LoadInfo.load_unsafe_na_check = "LOAD_UNSAFE_NA_CHECK"
warning_code_str LoadInfo.load_no_evttype = "LOAD_NO_EVTTYPE"
warning_code_str LoadInfo.load_unknown_filter = "LOAD_UNKNOWN_FILTER"
warning_code_str LoadInfo.load_unused_macro = "LOAD_UNUSED_MACRO"
warning_code_str LoadInfo.load_unused_list = "LOAD_UNUSED_LIST"
warning_code_str LoadInfo.load_unknown_item = "LOAD_UNKNOWN_ITEM"
warning_code_str LoadInfo.load_deprecated_item = "LOAD_DEPRECATED_ITEM"
warning_code_str LoadInfo.load_warning_extension = "LOAD_WARNING_EXTENSION"
warning_code_str LoadInfo.load_append_no_values = "LOAD_APPEND_NO_VALUES"
warning_code_str LoadInfo.load_exception_name_not_unique = "LOAD_EXCEPTION_NAME_NOT_UNIQUE"
warning_code_str LoadInfo.load_invalid_macro_name = "LOAD_INVALID_MACRO_NAME"
warning_code_str LoadInfo.load_invalid_list_name = "LOAD_INVALID_LIST_NAME"
warning_code_str LoadInfo.load_compile_condition = "LOAD_COMPILE_CONDITION"

abbrev pub warning_str : WarningCode → String
warning_str LoadInfo.load_unknown_source = "Unknown event source"
warning_str LoadInfo.load_unsafe_na_check = "Unsafe <NA> comparison in condition"
warning_str LoadInfo.load_no_evttype = "Condition has no event-type restriction"
warning_str LoadInfo.load_unknown_filter = "Unknown field or event-type in condition or output"
warning_str LoadInfo.load_unused_macro = "Unused macro"
warning_str LoadInfo.load_unused_list = "Unused list"
warning_str LoadInfo.load_unknown_item = "Unknown rules file item"
warning_str LoadInfo.load_deprecated_item = "Used deprecated item"
warning_str LoadInfo.load_warning_extension = "Warning in extension item"
warning_str LoadInfo.load_append_no_values = "Overriding/appending with no values"
warning_str LoadInfo.load_exception_name_not_unique =
    "Multiple exceptions defined with the same name"
warning_str LoadInfo.load_invalid_macro_name = "Invalid macro name"
warning_str LoadInfo.load_invalid_list_name = "Invalid list name"
warning_str LoadInfo.load_compile_condition = "Warning in rule condition"

abbrev pub item_type_as_string : ItemType → String
item_type_as_string LoadInfo.value_for = "value for"
item_type_as_string LoadInfo.exceptions_item = "exceptions"
item_type_as_string LoadInfo.exception = "exception"
item_type_as_string LoadInfo.exception_values = "exception values"
item_type_as_string LoadInfo.exception_value = "exception value"
item_type_as_string LoadInfo.rules_content = "rules content"
item_type_as_string LoadInfo.rules_content_item = "rules content item"
item_type_as_string LoadInfo.required_engine_version_item = "required_engine_version"
item_type_as_string LoadInfo.required_plugin_versions = "required plugin versions"
item_type_as_string LoadInfo.required_plugin_versions_entry = "required plugin versions entry"
item_type_as_string LoadInfo.required_plugin_versions_alternative =
    "required plugin versions alternative"
item_type_as_string LoadInfo.list = "list"
item_type_as_string LoadInfo.list_item = "list item"
item_type_as_string LoadInfo.macro = "macro"
item_type_as_string LoadInfo.macro_condition = "macro condition"
item_type_as_string LoadInfo.rule = "rule"
item_type_as_string LoadInfo.rule_condition = "rule condition"
item_type_as_string LoadInfo.condition_expression = "condition expression"
item_type_as_string LoadInfo.rule_output = "rule output"
item_type_as_string LoadInfo.rule_output_expression = "rule output expression"
item_type_as_string LoadInfo.rule_priority = "rule priority"
item_type_as_string LoadInfo.override = "overrides"
item_type_as_string LoadInfo.extension_item = "extension item"

-- An `int` as a stream writes it.
abbrev pub int_to_string : ℤ → String
int_to_string (non_negative n) = to_string n
int_to_string (negsuc n) = "-" <> to_string (n + 1)

abbrev location_text : (first : Bool) → Location → String
location_text first loc =
    (if first then "In " else "    ")
    <> (item_type_as_string loc.item_type
        <> ((if is_empty_text loc.item_name then "" else " '" <> (loc.item_name <> "'"))
            <> (": ("
                <> (loc.name
                    <> (":"
                        <> (int_to_string loc.position.line
                            <> (":" <> (int_to_string loc.position.column <> ")\n"))))))))

unfoldable pub locations_text : (first : Bool) → List Location → String
locations_text first [] = ""
locations_text first (loc ∷ locs) = location_text first loc <> locations_text false locs

-- `none` is the exception of a context without a location.
unfoldable pub context_text : List Location → Option String
context_text [] = none
context_text (loc ∷ locs) = some (locations_text true (loc ∷ locs))

unfoldable pub as_string : Context → Option String
as_string ctx = context_text ctx.m_locs

-- The texts of a list, with blanks between them.
unfoldable pub join_blanks : (first : Bool) → List String → String
join_blanks first [] = ""
join_blanks first (s ∷ ss) = (if first then "" else " ") <> (s <> join_blanks false ss)

abbrev pub error_line : RuleLoadException → String
error_line err = error_code_str err.ec <> (" (" <> (error_str err.ec <> ")"))

abbrev pub warning_line : Warning → String
warning_line warn = warning_code_str warn.wc <> (" (" <> (warning_str warn.wc <> ")"))

abbrev pub state_text : LoadResult → String
state_text res =
    (if is_empty_text res.name then "" else res.name <> ": ")
    <> (if not res.success
        then "Invalid"
        else elim res.warnings [ [] ↦ "Ok" | w ∷ ws ↦ "Ok, with warnings" ])

abbrev pub count_text : (kind : String) → List String → String
count_text kind [] = ""
count_text kind (s ∷ ss) =
    "\n "
    <> (to_string (length (s ∷ ss)) <> (kind <> (": [" <> (join_blanks true (s ∷ ss) <> "]"))))

-- The text, which is also stored; a text that was stored before is given again.
unfoldable pub as_summary_string : LoadResult → (res_summary_string : String) → String
as_summary_string res res_summary_string =
    let text =
      state_text res
      <> (count_text " errors" (map error_line res.errors)
          <> count_text " warnings" (map warning_line res.warnings)) in
    if is_empty_text res_summary_string then text else res_summary_string

-- A text, and what follows it.
unfoldable pub followed_by : Snippet → Snippet → Snippet
followed_by (snippet_text a) (snippet_text b) = snippet_text (a ++ b)
followed_by (snippet_text a) no_location = no_location
followed_by (snippet_text a) out_of_range = out_of_range
followed_by no_location b = no_location
followed_by out_of_range b = out_of_range

unfoldable pub framed : (head line msg : String) → Snippet → Snippet
framed head line msg (snippet_text t) =
    snippet_text
      (codes (head <> "------\n") ++ t ++ codes ("------\n" <> (line <> (": " <> (msg <> "\n")))))
framed head line msg no_location = no_location
framed head line msg out_of_range = out_of_range

-- The place of an error or a warning, its snippet and its message.
unfoldable pub entry_text :
    (rules_contents : String → Option Bytes) → Context → (line msg : String) → Snippet
entry_text rules_contents ctx line msg = elim (as_string ctx) [
  | none ↦ no_location
  | some head ↦ framed head line msg (snippet ctx rules_contents 160)
]

unfoldable pub errors_text :
    (rules_contents : String → Option Bytes) → List RuleLoadException → Snippet
errors_text rules_contents [] = snippet_text []
errors_text rules_contents (err ∷ errs) =
    followed_by (entry_text rules_contents err.ctx (error_line err) err.msg)
      (errors_text rules_contents errs)

unfoldable pub warnings_text : (rules_contents : String → Option Bytes) → List Warning → Snippet
warnings_text rules_contents [] = snippet_text []
warnings_text rules_contents (warn ∷ warns) =
    followed_by (entry_text rules_contents warn.ctx (warning_line warn) warn.msg)
      (warnings_text rules_contents warns)

abbrev count_line {ℓ} : {A : Type ℓ} → (kind : String) → List A → Bytes
count_line kind [] = []
count_line kind (x ∷ xs) = codes ("\n" <> (to_string (length (x ∷ xs)) <> (kind <> ":\n")))

-- The text where none is stored.
unfoldable pub as_verbose_string : (rules_contents : String → Option Bytes) → LoadResult → Snippet
as_verbose_string rules_contents res =
    followed_by (snippet_text (codes (state_text res) ++ count_line " Errors" res.errors)) (
      followed_by (errors_text rules_contents res.errors) (
        followed_by (snippet_text (count_line " Warnings" res.warnings))
          (warnings_text rules_contents res.warnings)))
