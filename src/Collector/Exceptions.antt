-- ===== src/Collector/Exceptions.antt =====
-- userspace/engine/rule_loader_collector.cpp: the validation and the appending of rule exceptions.
use falco.Prelude.{
  String, ◌<>◌, Bool, true, false, not, ◌&&◌, ◌||◌, Option, none, some, List, [], ◌∷◌, ◌++◌,
  if◌then◌else◌, contains, string_eq, nat_eq, ◌==◌, length, map,
}
use falco.LoadInfo.{
  Context, RuleLoadException, load_err_validate, FalcoSource, is_valid_lhs_field, Entry, entry,
  to_entries, is_list, item, items, item_entry,
}
use falco.RuleInfo.{RuleExceptionInfo, is_valid}
use falco.Ruleset.{is_empty}
use falco.Collector.{Result, done, threw, throw}

-- What a validation gives: its exception, or the info as the validation left it.
pub data Validated : Type 0 where
  valid : RuleExceptionInfo → Validated
  invalid : RuleLoadException → Validated

abbrev pub refuse : String → Context → Validated
refuse msg ctx = invalid (record { ec = load_err_validate; msg = msg; ctx = ctx })

-- `source` is a null pointer, or its field is valid.
unfoldable pub is_field : Option FalcoSource → String → Bool
is_field none field = true
is_field (some source) field = is_valid_lhs_field source field

-- The first entry whose text fails a test.
unfoldable pub first_refused : (String → Bool) → List Entry → Option Entry
first_refused test [] = none
first_refused test (e ∷ es) =
    let rest = first_refused test es in if test (item e) then rest else some e

unfoldable pub has_exception : String → List RuleExceptionInfo → Bool
has_exception name [] = false
has_exception name (i ∷ is) = i.name == name || has_exception name is

-- The values go behind those of the first exception with the name.
unfoldable pub append_values : RuleExceptionInfo → List RuleExceptionInfo → List RuleExceptionInfo
append_values ex [] = []
append_values ex (i ∷ is) =
    let rest = append_values ex is in
    if i.name == ex.name then record i { values = i.values ++ ex.values } ∷ is else i ∷ rest

module _ (supported_operators : List String) where
  unfoldable pub is_operator_defined : String → Bool
  is_operator_defined op = contains supported_operators op

  -- Invalid comps of a list become as many "=" as there are fields, behind what they hold.
  unfoldable pub list_comps : RuleExceptionInfo → Entry
  list_comps ex =
      if is_valid ex.comps
      then ex.comps
      else entry true (item ex.comps)
          (to_entries (items ex.comps ++ map (λ e. item_entry "=") (items ex.fields)))

  unfoldable pub check_fields : Option FalcoSource → RuleExceptionInfo → Validated
  check_fields source ex = elim (first_refused (is_field source) (items ex.fields)) [
    | some v ↦ refuse ("'" <> (item v <> "' is not a supported filter field")) ex.ctx
    | none ↦ valid ex
  ]

  unfoldable pub check_comps : Option FalcoSource → RuleExceptionInfo → Validated
  check_comps source ex =
      if not (length (items ex.fields) == length (items ex.comps))
      then refuse "Fields and comps lists must have equal length" ex.ctx
      else elim (first_refused is_operator_defined (items ex.comps)) [
        | some v ↦ refuse ("'" <> (item v <> "' is not a supported comparison operator")) ex.ctx
        | none ↦ check_fields source ex
      ]

  unfoldable pub item_comps : RuleExceptionInfo → Entry
  item_comps ex =
      if is_valid ex.comps then ex.comps else entry false "in" (to_entries (items ex.comps))

  unfoldable pub check_item : Option FalcoSource → RuleExceptionInfo → Validated
  check_item source ex =
      if is_list ex.comps
      then refuse "Fields and comps must both be strings" ex.ctx
      else if not (item ex.comps == "in")
          && not (item ex.comps == "pmatch")
          && not (item ex.comps == "intersects")
      then refuse "When fields is a single value, comps must be one of (in, pmatch, intersects)"
          ex.ctx
      else if not (is_field source (item ex.fields))
      then refuse ("'" <> (item ex.fields <> "' is not a supported filter field")) ex.ctx
      else valid ex

  unfoldable pub validate_exception_info : Option FalcoSource → RuleExceptionInfo → Validated
  validate_exception_info source ex =
      if is_list ex.fields
      then check_comps source (record ex { comps = list_comps ex })
      else check_item source (record ex { comps = item_comps ex })

  -- The loop of `define` over a rule's exceptions.
  unfoldable pub validate_exceptions :
      Option FalcoSource → List RuleExceptionInfo → Result (List RuleExceptionInfo)
  validate_exceptions source [] = done []
  validate_exceptions source (ex ∷ exs) =
      let rest = validate_exceptions source exs in
      if not (is_valid ex.fields)
      then throw "Rule exception item must have fields property with a list of fields" ex.ctx []
      else elim (validate_exception_info source ex) [
        | invalid err ↦ threw err []
        | valid ex' ↦ elim rest [ threw err exs' ↦ threw err [] | done exs' ↦ done (ex' ∷ exs') ]
      ]

  unfoldable pub append_exception :
      Option FalcoSource
      → RuleExceptionInfo
      → List RuleExceptionInfo
      → Result (List RuleExceptionInfo)
  append_exception source ex prev =
      if has_exception ex.name prev
      then if is_valid ex.fields
        then throw "Can not append exception fields to existing exception, only values" ex.ctx prev
        else if is_valid ex.comps
        then throw "Can not append exception comps to existing exception, only values" ex.ctx prev
        else done (append_values ex prev)
      else if not (is_valid ex.fields)
      then throw "Rule exception must have fields property with a list of fields" ex.ctx prev
      else if is_empty ex.values
      then throw "Rule exception must have values property with a list of values" ex.ctx prev
      else elim (validate_exception_info source ex) [
        | invalid err ↦ threw err prev
        | valid ex' ↦ done (prev ++ ex' ∷ [])
      ]

  -- The loop of `append`: what was appended before an exception is thrown stays.
  unfoldable pub append_exceptions :
      Option FalcoSource
      → List RuleExceptionInfo
      → List RuleExceptionInfo
      → Result (List RuleExceptionInfo)
  append_exceptions source [] prev = done prev
  append_exceptions source (ex ∷ exs) prev = elim (append_exception source ex prev) [
    | threw err prev' ↦ threw err prev'
    | done prev' ↦ append_exceptions source exs prev'
  ]
