-- ===== src/Reader/RuleItems.antt =====
-- userspace/engine/rule_loader_reader.cpp: how the rules are read.
use falco.Prelude.{
  ℕ, String, Bool, true, false, not, ◌&&◌, ◌||◌, some, List, if◌then◌else◌, nat_eq, string_eq,
  list_eq,
}
use falco.LoadInfo.{rule, rule_condition, rule_output, Context, load_deprecated_item}
use falco.LoadInfo.Contexts.{new_rule, new_update}
use falco.Ruleset.{is_empty}
use falco.Collector.Sequence.{defines_rule, appends_rule, enables_rule}
use falco.Reader.{
  Libraries, Reading, ReaderState, ◌>>=◌, ◌>>◌, pure, throw_if, warn, collect, context_of,
}
use falco.Reader.Values.{
  decode_text, decode_flag, decode_optional_text, decode_optional_flag, decode_tags,
  decode_overrides,
}
use falco.Reader.Exceptions.{read_rule_exceptions}
use falco.Reader.Items.{error_override_append, read_append}
use falco.Reader.RuleUpdates.{
  overridable_append, overridable_replace, defined_keys, read_priority, read_append_update,
  read_replace_update, refuse_keys,
}

abbrev pub warning_enabled : String
warning_enabled =
    "The standalone 'enabled' key usage is deprecated. The correct approach requires also a 'replace' entry under the 'override' key (i.e. 'enabled: replace')."

module _ {Node SinspVersion : Type 0} (lib : Libraries Node SinspVersion) (fuel : ℕ) where
  abbrev Read : Type 0 → Type 0
  Read A = Reading (ReaderState SinspVersion) A

  abbrev is_key : Node → String → Bool
  is_key item key = lib.yaml.is_defined (lib.yaml.get key item)

  -- The updates of a rule that has overrides: first those that append, then those that replace.
  unfoldable pub read_rule_overrides :
      (item : Node) → (name : String) → (List String × List String) → Context → Read (Unit {0})
  read_rule_overrides item name (override_append, override_replace) ctx = do
    let expected_keys = defined_keys lib item overridable_replace
    expected1 ←
        if not (is_empty override_append)
        then read_append_update lib fuel item name expected_keys override_append ctx
        else pure expected_keys
    expected2 ←
        if not (is_empty override_replace)
        then read_replace_update lib fuel item name expected1 override_replace ctx
        else pure expected1
    refuse_keys lib item expected2 ctx

  -- A rule with the flag `append`.
  unfoldable pub read_appended_rule : (item : Node) → (name : String) → Context → Read (Unit {0})
  read_appended_rule item name ctx = do
    v ←
        if is_key item "condition"
        then (do
          cond_ctx ← context_of lib (lib.yaml.get "condition" item) rule_condition "" ctx
          cond ← decode_text lib item "condition" ctx
          pure (record (new_update ctx) { name = name; cond = some cond; cond_ctx = cond_ctx }))
        else pure (record (new_update ctx) { name = name })
    v' ←
        if is_key item "exceptions"
        then (do
          exceptions ← read_rule_exceptions lib fuel item ctx true
          pure (record v { exceptions = some exceptions }))
        else pure v
    collect lib (appends_rule v')

  -- A rule without any of the required keys: only its `enabled` is read.
  unfoldable pub read_enabled : (item : Node) → (name : String) → Context → Read (Unit {0})
  read_enabled item name ctx = do
    enabled ← decode_flag lib item "enabled" true ctx
    warn lib load_deprecated_item warning_enabled ctx
    collect lib (enables_rule (record (new_rule ctx) { name = name; enabled = enabled }))

  unfoldable pub read_defined_rule : (item : Node) → (name : String) → Context → Read (Unit {0})
  read_defined_rule item name ctx = do
    cond ← decode_text lib item "condition" ctx
    cond_ctx ← context_of lib (lib.yaml.get "condition" item) rule_condition "" ctx
    output ← decode_text lib item "output" ctx
    output_ctx ← context_of lib (lib.yaml.get "output" item) rule_output "" ctx
    desc ← decode_text lib item "desc" ctx
    priority ← read_priority lib item ctx
    source ← decode_optional_text lib item "source" lib.syscall_source ctx
    enabled ← decode_optional_flag lib item "enabled" true ctx
    warn_evttypes ← decode_optional_flag lib item "warn_evttypes" true ctx
    skip ← decode_optional_flag lib item "skip-if-unknown-filter" false ctx
    tags ← decode_tags lib item ctx
    exceptions ← read_rule_exceptions lib fuel item ctx false
    collect lib (
        defines_rule (record (new_rule ctx) {
          name = name;
          cond = cond;
          cond_ctx = cond_ctx;
          output = lib.trim output;
          output_ctx = output_ctx;
          desc = desc;
          priority = priority;
          source = source;
          enabled = enabled;
          warn_evttypes = warn_evttypes;
          skip_if_unknown_filter = skip;
          tags = tags;
          exceptions = exceptions;
        }))

  unfoldable pub read_rule : (item : Node) → (parent : Context) → Read (Unit {0})
  read_rule item parent = do
    tmp ← context_of lib item rule "" parent
    name ← decode_text lib item "rule" tmp
    ctx ← context_of lib item rule name parent
    has_append_flag ← read_append lib item ctx
    overrides ← decode_overrides lib item overridable_append overridable_replace ctx
    let has_overrides = not (is_empty overrides.0) || not (is_empty overrides.1)
    throw_if (has_append_flag && has_overrides) error_override_append ctx
    (if has_overrides
        then read_rule_overrides item name overrides ctx
        else if has_append_flag
        then read_appended_rule item name ctx
        else if not (is_key item "condition")
            && (not (is_key item "output")
                && (not (is_key item "desc") && not (is_key item "priority")))
        then read_enabled item name ctx
        else read_defined_rule item name ctx)
