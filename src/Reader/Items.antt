-- ===== src/Reader/Items.antt =====
-- userspace/engine/rule_loader_reader.cpp: how required versions, lists and macros are read, with the
-- implicit engine version of userspace/engine/rule_loader_reader.h.
use falco.Prelude.{
  ℕ, String, ◌<>◌, Bool, false, not, ◌&&◌, ◌||◌, List, [], ◌∷◌, if◌then◌else◌, nat_eq, string_eq,
  list_eq, contains, to_string,
}
use falco.LoadInfo.{
  required_engine_version_item, required_plugin_versions, required_plugin_versions_entry,
  required_plugin_versions_alternative, list, macro, macro_condition, Context, load_deprecated_item,
  load_invalid_macro_name, load_invalid_list_name, Requirement, ListInfo, MacroInfo,
}
use falco.LoadInfo.Contexts.{new_list, new_macro}
use falco.Ruleset.{is_empty}
use falco.Collector.Sequence.{
  defines_engine_version, defines_plugin_version, defines_list, appends_list, defines_macro,
  appends_macro,
}
use falco.Reader.{
  Libraries, Reading, ReaderState, ◌>>=◌, ◌>>◌, pure, throw_if, catch_std, warn, collect,
  context_of,
}
use falco.Reader.Values.{
  decode_val_generic, decode_text, decode_optional_flag, decode_items, decode_overrides,
}

abbrev pub warning_append : String
warning_append =
    "'append' key is deprecated. Add an 'append' entry (e.g. 'condition: append') under 'override' instead."

abbrev pub error_override_append : String
error_override_append =
    "Keys 'override' and 'append: true' cannot be used together. Add an 'append' entry (e.g. 'condition: append') under 'override' instead."

module _ {Node SinspVersion : Type 0} (lib : Libraries Node SinspVersion) where
  abbrev Read : Type 0 → Type 0
  Read A = Reading (ReaderState SinspVersion) A

  abbrev pub get_implicit_engine_version : ℕ → SinspVersion
  get_implicit_engine_version minor = lib.sinsp.sinsp_version ("0." <> (to_string minor <> ".0"))

  -- The version as a number, and else, whatever was thrown, as a text.
  unfoldable pub read_engine_version : (item : Node) → (parent : Context) → Read (Unit {0})
  read_engine_version item parent = do
    ctx ← context_of lib item required_engine_version_item "" parent
    version ←
        catch_std
          (do
            ver ←
                decode_val_generic lib lib.yaml.decode_uint32 item "required_engine_version" 0 ctx
                  false
            pure (get_implicit_engine_version ver))
          (do
            ver ← decode_text lib item "required_engine_version" ctx
            throw_if (not (lib.sinsp.is_valid_version (lib.sinsp.sinsp_version ver)))
                ("Unable to parse engine version '"
                  <> (ver <> "' as a semver string. Expected \"x.y.z\" semver format."))
                ctx
            pure (lib.sinsp.sinsp_version ver))
    collect lib (defines_engine_version (record { ctx = ctx; version = version }))

  unfoldable pub read_alternatives : List Node → (pctx : Context) → Read (List Requirement)
  read_alternatives [] pctx = pure []
  read_alternatives (req ∷ reqs) pctx = do
    tmp ← context_of lib req required_plugin_versions_alternative "" pctx
    throw_if (not (lib.yaml.is_map req)) "Plugin version alternative must be a mapping" tmp
    name ← decode_text lib req "name" tmp
    tmp' ← context_of lib req required_plugin_versions_alternative name pctx
    version ← decode_text lib req "version" tmp'
    rest ← read_alternatives reqs pctx
    pure (record { name = name; version = version } ∷ rest)

  unfoldable pub read_plugin_alternatives :
      (alternatives : Node) → (pctx : Context) → Read (List Requirement)
  read_plugin_alternatives alternatives pctx =
      if lib.yaml.is_defined alternatives
      then (do
        throw_if (not (lib.yaml.is_sequence alternatives))
            "Value of plugin version alternatives must be a sequence" pctx
        read_alternatives (lib.yaml.elements alternatives) pctx)
      else pure []

  unfoldable pub read_plugin_versions : List Node → Context → Read (Unit {0})
  read_plugin_versions [] ctx = pure tt
  read_plugin_versions (plugin ∷ plugins) ctx = do
    tmp ← context_of lib plugin required_plugin_versions_entry "" ctx
    throw_if (not (lib.yaml.is_map plugin)) "Plugin version must be a mapping" tmp
    name ← decode_text lib plugin "name" tmp
    pctx ← context_of lib plugin required_plugin_versions_entry name ctx
    version ← decode_text lib plugin "version" pctx
    rest ← read_plugin_alternatives (lib.yaml.get "alternatives" plugin) pctx
    collect lib (
        defines_plugin_version
          (record { ctx = pctx; alternatives = record { name = name; version = version } ∷ rest }))
    read_plugin_versions plugins ctx

  unfoldable pub read_required_plugin_versions :
      (item : Node) → (parent : Context) → Read (Unit {0})
  read_required_plugin_versions item parent = do
    let req_plugin_vers = lib.yaml.get "required_plugin_versions" item
    ctx ← context_of lib req_plugin_vers required_plugin_versions "" parent
    throw_if (not (lib.yaml.is_sequence req_plugin_vers))
        "Value of required_plugin_versions must be a sequence" ctx
    read_plugin_versions (lib.yaml.elements req_plugin_vers) ctx

  -- Whether `append: true` is there, with the warning about it.
  unfoldable pub read_append : (item : Node) → Context → Read Bool
  read_append item ctx = do
    append ← decode_optional_flag lib item "append" false ctx
    (if append then warn lib load_deprecated_item warning_append ctx else pure tt)
    pure append

  -- Whether the one overridable key of an object is to be appended.
  unfoldable pub read_override :
      (item : Node) → (key : String) → (append : Bool) → Context → Read Bool
  read_override item key append ctx = do
    (override_append, override_replace) ← decode_overrides lib item (key ∷ []) (key ∷ []) ctx
    throw_if (append && (not (is_empty override_append) || not (is_empty override_replace)))
        error_override_append ctx
    pure (append || contains override_append key)

  unfoldable pub read_list : (item : Node) → (parent : Context) → Read (Unit {0})
  read_list item parent = do
    tmp ← context_of lib item list "" parent
    name ← decode_text lib item "list" tmp
    ctx ← context_of lib item list name parent
    (if lib.match_barestr name
        then pure tt
        else warn lib load_invalid_list_name
            "List has an invalid name. List names should match a regular expression: ([^()\"'[:space:]=,]+)"
            ctx)
    name' ← decode_text lib item "list" ctx
    items ← decode_items lib item ctx
    let v : ListInfo = record (new_list ctx) { name = name'; items = items }
    append ← read_append item ctx
    append' ← read_override item "items" append ctx
    (if append' then collect lib (appends_list v) else collect lib (defines_list v))

  unfoldable pub read_macro : (item : Node) → (parent : Context) → Read (Unit {0})
  read_macro item parent = do
    tmp ← context_of lib item macro "" parent
    name ← decode_text lib item "macro" tmp
    ctx ← context_of lib item macro name parent
    (if lib.match_identifier name
        then pure tt
        else warn lib load_invalid_macro_name
            "Macro has an invalid name. Macro names should match a regular expression: ([a-zA-Z]+[a-zA-Z0-9_]*)"
            ctx)
    cond ← decode_text lib item "condition" ctx
    cond_ctx ← context_of lib (lib.yaml.get "condition" item) macro_condition "" ctx
    let v : MacroInfo = record (new_macro ctx) { name = name; cond = cond; cond_ctx = cond_ctx }
    append ← read_append item ctx
    append' ← read_override item "condition" append ctx
    (if append' then collect lib (appends_macro v) else collect lib (defines_macro v))
