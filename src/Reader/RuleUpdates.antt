-- ===== src/Reader/RuleUpdates.antt =====
-- userspace/engine/rule_loader_reader.cpp: how the updates of a rule are read.
use falco.Prelude.{
  ℕ, String, ◌<>◌, Bool, true, false, not, Option, none, some, List, [], ◌∷◌, if◌then◌else◌, ◌==◌,
  nat_eq, string_eq, list_eq, contains,
}
use falco.LoadInfo.{rule_priority, override, Context}
use falco.LoadInfo.Contexts.{new_update}
use falco.RuleInfo.{RuleUpdateInfo}
use falco.Rule.{Priority}
use falco.FalcoCommon.{parse_priority}
use falco.Collector.Sequence.{appends_rule, replaces_rule}
use falco.Reader.{
  Libraries, Reading, ReaderState, ◌>>=◌, ◌>>◌, pure, throw_if, or_throw, collect, context_of,
}
use falco.Reader.Values.{decode_text, decode_flag, decode_tags}
use falco.Reader.Exceptions.{read_rule_exceptions}

abbrev pub overridable_append : List String
overridable_append = "condition" ∷ "desc" ∷ "exceptions" ∷ "output" ∷ "tags" ∷ []

abbrev pub overridable_replace : List String
overridable_replace =
    "condition" ∷ "desc" ∷ "enabled" ∷ "exceptions" ∷ "output" ∷ "priority"
    ∷ "skip-if-unknown-filter" ∷ "tags" ∷ "warn_evttypes" ∷ []

-- `expected_keys.erase(key)`
unfoldable pub erase_key : String → List String → List String
erase_key key [] = []
erase_key key (k ∷ ks) = if k == key then erase_key key ks else k ∷ erase_key key ks

module _ {Node SinspVersion : Type 0} (lib : Libraries Node SinspVersion) where
  abbrev Read : Type 0 → Type 0
  Read A = Reading (ReaderState SinspVersion) A

  -- Those of the keys that are defined. Every appendable key is replaceable, and a `std::set` has
  -- its keys in order.
  unfoldable pub defined_keys : (item : Node) → List String → List String
  defined_keys item [] = []
  defined_keys item (key ∷ keys) =
      if lib.yaml.is_defined (lib.yaml.get key item)
      then key ∷ defined_keys item keys
      else defined_keys item keys

  unfoldable pub check_update_expected :
      (expected_keys overrides : List String)
      → (override_type key : String) → Context
      → Read (Bool × List String)
  check_update_expected expected_keys overrides override_type key ctx =
      if not (contains overrides key) then pure (false, expected_keys) else do
        throw_if (not (contains expected_keys key))
            ("An "
              <> (override_type
                  <> (" override for '"
                      <> (key <> ("' was specified but '" <> (key <> "' is not defined"))))))
            ctx
        pure (true, erase_key key expected_keys)

  -- A member of the update, which is read where an override for its key is expected.
  unfoldable pub read_update :
      {T : Type 0}
      → Read T
      → (expected_keys overrides : List String) → (override_type key : String) → Context
      → Read (Option T × List String)
  read_update read expected_keys overrides override_type key ctx = do
    (expected, expected_keys') ← check_update_expected expected_keys overrides override_type key ctx
    if expected then (do t ← read; pure (some t, expected_keys')) else pure (none, expected_keys')

  unfoldable pub read_priority : (item : Node) → Context → Read Priority
  read_priority item ctx = do
    priority ← decode_text lib item "priority" ctx
    prictx ← context_of lib (lib.yaml.get "priority" item) rule_priority "" ctx
    or_throw (parse_priority priority) "Invalid priority" prictx

  -- The first key without an override is an error.
  unfoldable pub refuse_keys : (item : Node) → List String → Context → Read (Unit {0})
  refuse_keys item [] ctx = pure tt
  refuse_keys item (key ∷ keys) ctx = do
    keyctx ← context_of lib (lib.yaml.get key item) override key ctx
    throw_if true
        ("Unexpected key '" <> (key <> "': no corresponding entry under 'override' is defined."))
        keyctx

  module _ (fuel : ℕ) where
    -- The members that both kinds of update have.
    unfoldable pub read_common_updates :
        (item : Node)
        → (name : String) → (expected_keys overrides : List String) → (override_type : String)
        → (append : Bool) → Context
        → Read (RuleUpdateInfo × List String)
    read_common_updates item name expected overrides type append ctx = do
      (cond, expected1) ←
          read_update (decode_text lib item "condition" ctx) expected overrides type "condition" ctx
      (exceptions, expected2) ←
          read_update (read_rule_exceptions lib fuel item ctx append) expected1 overrides type
            "exceptions" ctx
      (output, expected3) ←
          read_update (decode_text lib item "output" ctx) expected2 overrides type "output" ctx
      (desc, expected4) ←
          read_update (decode_text lib item "desc" ctx) expected3 overrides type "desc" ctx
      (tags, expected5) ← read_update (decode_tags lib item ctx) expected4 overrides type "tags" ctx
      pure (
        record (new_update ctx) {
          name = name;
          cond = cond;
          exceptions = exceptions;
          output = output;
          desc = desc;
          tags = tags;
        },
        expected5,
      )

    unfoldable pub read_append_update :
        (item : Node)
        → (name : String) → (expected_keys overrides : List String) → Context
        → Read (List String)
    read_append_update item name expected overrides ctx = do
      (v, expected') ← read_common_updates item name expected overrides "append" true ctx
      collect lib (appends_rule v)
      pure expected'

    unfoldable pub read_replace_update :
        (item : Node)
        → (name : String) → (expected_keys overrides : List String) → Context
        → Read (List String)
    read_replace_update item name expected overrides ctx = do
      (v, expected1) ← read_common_updates item name expected overrides "replace" false ctx
      (priority, expected2) ←
          read_update (read_priority item ctx) expected1 overrides "replace" "priority" ctx
      (enabled, expected3) ←
          read_update (decode_flag lib item "enabled" false ctx) expected2 overrides "replace"
            "enabled" ctx
      (warn_evttypes, expected4) ←
          read_update (decode_flag lib item "warn_evttypes" false ctx) expected3 overrides "replace"
            "warn_evttypes" ctx
      (skip, expected5) ←
          read_update (decode_flag lib item "skip-if-unknown-filter" false ctx) expected4 overrides
            "replace" "skip-if-unknown-filter" ctx
      collect lib (
          replaces_rule (record v {
            priority = priority;
            enabled = enabled;
            warn_evttypes = warn_evttypes;
            skip_if_unknown_filter = skip;
          }))
      pure expected5
