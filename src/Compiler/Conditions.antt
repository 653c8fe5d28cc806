-- ===== src/Compiler/Conditions.antt =====
-- userspace/engine/rule_loader_compiler.cpp: the exceptions of a rule become a part of its condition.
use falco.Prelude.{
  ℕ, String, ◌<>◌, Bool, true, false, not, ◌&&◌, Option, none, some, List, [], ◌∷◌, ◌++◌,
  if◌then◌else◌, ◌==◌, nat_eq, string_eq, list_eq, contains, length,
}
use falco.ByteString.{Bytes, codes, find_char}
use falco.LoadInfo.{RuleLoadException, load_err_validate, Entry, is_list, item, items}
use falco.RuleInfo.{RuleExceptionInfo, is_empty_text}

-- The condition and the set of the exceptions' fields, each once; or the exception that is thrown;
-- or an access behind the end of a vector.
pub data Built : Type 0 where
  built : String → List String → Built
  threw : RuleLoadException → Built
  out_of_range : Built

abbrev pub starts_with_byte : ℕ → Bytes → Bool
starts_with_byte c [] = false
starts_with_byte c (d ∷ ds) = c == d

abbrev pub is_found : Option ℕ → Bool
is_found none = false
is_found (some i) = true

unfoldable pub quote_item : String → String
quote_item e =
    if is_found (find_char b' ' (codes e))
      && not (starts_with_byte b'"' (codes e))
      && not (starts_with_byte b'\'' (codes e))
    then "\"" <> (e <> "\"")
    else e

unfoldable pub paren_item : String → String
paren_item e = if starts_with_byte b'(' (codes e) then e else "(" <> (e <> ")")

-- `std::set::insert`
unfoldable pub insert_field : String → List String → List String
insert_field field fields = if contains fields field then fields else fields ++ field ∷ []

-- The items of a list among the values, with `istr` as it grows from "(".
unfoldable pub join_items : List Entry → String → String
join_items [] istr = istr <> ")"
join_items (v ∷ vs) istr =
    join_items vs (istr <> ((if istr == "(" then "" else ", ") <> quote_item (item v)))

-- The values of an exception with one field.
unfoldable pub item_values : RuleExceptionInfo → List Entry → String → List String → Built
item_values ex [] icond fields = built (if is_empty_text icond then icond else icond <> "))") fields
item_values ex (val ∷ vals) icond fields =
    let opened =
      if is_empty_text icond
      then "(" <> (item ex.fields <> (" " <> (item ex.comps <> " (")))
      else ", " in
    let rest =
      item_values ex vals (icond <> (opened <> quote_item (item val)))
        (insert_field (item ex.fields) fields) in
    if is_list val
    then threw (record {
      ec = load_err_validate;
      msg = "Expected values array to contain a list of strings";
      ctx = ex.ctx;
    })
    else rest

module _ (list_operators : List String) where
  unfoldable pub value_text : (comp : String) → (value : Entry) → String
  value_text comp value =
      if is_list value
      then join_items (items value) "("
      else if contains list_operators comp
      then paren_item (item value)
      else quote_item (item value)

  -- The loop over the fields, with the operators and the values that its counter reads.
  unfoldable pub join_fields :
      (separator : String) → List Entry → List Entry → List Entry → String → List String → Built
  join_fields separator [] comps values icond fields = built icond fields
  join_fields separator (f ∷ fs) [] values icond fields = out_of_range
  join_fields separator (f ∷ fs) (c ∷ cs) [] icond fields = out_of_range
  join_fields separator (f ∷ fs) (c ∷ cs) (v ∷ vs) icond fields =
      join_fields " and " fs cs vs
        (icond
          <> (separator
              <> (" " <> (item f <> (" " <> (item c <> (" " <> value_text (item c) v)))))))
        (insert_field (item f) fields)

  -- The values of an exception with a list of fields.
  unfoldable pub list_values : RuleExceptionInfo → List Entry → String → List String → Built
  list_values ex [] icond fields =
      let closed = icond <> ")" in built (if closed == "()" then "" else closed) fields
  list_values ex (val ∷ vals) icond fields =
      if not (length (items ex.fields) == length (items val))
      then threw (record {
        ec = load_err_validate;
        msg = "Fields and values lists must have equal length";
        ctx = ex.ctx;
      })
      else elim (join_fields "" (items ex.fields) (items ex.comps) (items val)
          (icond <> ((if icond == "(" then "" else " or ") <> "(")) fields) [
            | built icond' fields' ↦ list_values ex vals (icond' <> ")") fields'
            | threw err ↦ threw err
            | out_of_range ↦ out_of_range
          ]

  unfoldable pub exception_condition : RuleExceptionInfo → List String → Built
  exception_condition ex fields =
      if is_list ex.fields
      then list_values ex ex.values "(" fields
      else item_values ex ex.values "" fields

  -- The loop over the exceptions.
  unfoldable pub add_exceptions : List RuleExceptionInfo → String → List String → Built
  add_exceptions [] condition fields = built condition fields
  add_exceptions (ex ∷ exs) condition fields = elim (exception_condition ex fields) [
    | built icond fields' ↦
        add_exceptions exs (condition <> (if is_empty_text icond then "" else " and not " <> icond))
          fields'
    | threw err ↦ threw err
    | out_of_range ↦ out_of_range
  ]

  unfoldable pub build_rule_exception_infos : List RuleExceptionInfo → String → List String → Built
  build_rule_exception_infos exceptions condition fields =
      add_exceptions exceptions ("(" <> (condition <> ")")) fields
