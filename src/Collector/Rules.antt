-- ===== src/Collector/Rules.antt =====
-- userspace/engine/rule_loader_collector.cpp: the operations on rules.
use falco.Prelude.{
  String, ◌<>◌, Bool, true, false, not, Option, none, some, List, [], ◌∷◌, ◌++◌, if◌then◌else◌,
  contains, string_eq, ◌==◌,
}
use falco.IndexedVector.{at, update}
use falco.LoadInfo.{load_unknown_source, FalcoSource, Configuration, add_warning}
use falco.RuleInfo.{RuleInfo, RuleUpdateInfo, has_any_value, value_or, is_empty_text}
use falco.Collector.{Collector, Result, done, threw, throw, rule_info, define_info, next_index}
use falco.Collector.Exceptions.{validate_exceptions, append_exceptions}

-- `prev && prev->source != info.source`
unfoldable pub has_other_source : Option RuleInfo → RuleInfo → Bool
has_other_source none info = false
has_other_source (some prev) info = not (prev.source == info.source)

-- The text is appended behind a space, where there is one and it is not empty.
unfoldable pub append_text : Option String → String → String
append_text none prev = prev
append_text (some s) prev = if is_empty_text s then prev else prev <> (" " <> s)

-- `std::set::insert` for each; a set is the list of its elements, each once.
unfoldable pub insert_tags : List String → List String → List String
insert_tags [] tags = tags
insert_tags (tag ∷ more) tags =
    insert_tags more (if contains tags tag then tags else tags ++ tag ∷ [])

-- The rule before its exceptions are appended.
unfoldable pub append_fields : RuleUpdateInfo → RuleInfo → RuleInfo
append_fields info prev = record prev {
  cond = append_text info.cond prev.cond;
  output = append_text info.output prev.output;
  desc = append_text info.desc prev.desc;
  tags = insert_tags (value_or info.tags []) prev.tags;
}

unfoldable pub replace_fields : RuleUpdateInfo → RuleInfo → RuleInfo
replace_fields info prev = record prev {
  cond = value_or info.cond prev.cond;
  output = value_or info.output prev.output;
  desc = value_or info.desc prev.desc;
  tags = value_or info.tags prev.tags;
  exceptions = value_or info.exceptions prev.exceptions;
  priority = value_or info.priority prev.priority;
  enabled = value_or info.enabled prev.enabled;
  warn_evttypes = value_or info.warn_evttypes prev.warn_evttypes;
  skip_if_unknown_filter = value_or info.skip_if_unknown_filter prev.skip_if_unknown_filter;
}

-- The source of a rule: a null pointer where the rule's was unknown when it was collected.
pub data Found : Type 0 where
  found : Option FalcoSource → Found
  missing : Found

unfoldable pub find_source : Configuration → RuleInfo → Found
find_source cfg prev =
    if prev.unknown_source
    then found none
    else elim (at prev.source cfg.sources) [ none ↦ missing | some source ↦ found (some source) ]

-- `cfg.sources.at(info.source)`, with the warning where there is none.
unfoldable pub warn_source : Option FalcoSource → RuleInfo → Configuration → Configuration
warn_source (some source) info cfg = cfg
warn_source none info cfg = record cfg {
  res =
      add_warning load_unknown_source ("Unknown source " <> (info.source <> ", skipping")) info.ctx
        cfg.res;
}

unfoldable pub mark_unknown : Option FalcoSource → RuleInfo → RuleInfo
mark_unknown (some source) info = info
mark_unknown none info = record info { unknown_source = true }

module _ {SinspVersion : Type 0} where
  -- The rule that `m_rule_infos.at(name)` points at is changed.
  unfoldable pub write_rule : String → RuleInfo → Collector SinspVersion → Collector SinspVersion
  write_rule name rule c = record c { m_rule_infos = update name rule c.m_rule_infos }

  -- `append_info` and `replace_info`, which write and count up.
  unfoldable pub commit_rule : String → RuleInfo → Collector SinspVersion → Collector SinspVersion
  commit_rule name rule c =
      record (write_rule name (record rule { visibility = c.m_cur_index }) c) {
        m_cur_index = next_index c.m_cur_index;
      }

  module _ (supported_operators : List String) where
    unfoldable pub define_rule :
        RuleInfo
        → Collector SinspVersion × Configuration
        → Result (Collector SinspVersion × Configuration)
    define_rule info (c, cfg) =
        let source = at info.source cfg.sources in
        let cfg' = warn_source source info cfg in
        if has_other_source (at info.name c.m_rule_infos) info
        then throw "Rule has been re-defined with a different source" info.ctx (c, cfg)
        else elim (validate_exceptions supported_operators source info.exceptions) [
          | threw err exs ↦ threw err (c, cfg')
          | done exs ↦
              let rule = record (mark_unknown source info) { exceptions = exs } in
              done (
                record c {
                  m_rule_infos = define_info c.m_rule_infos rule c.m_cur_index;
                  m_cur_index = next_index c.m_cur_index;
                },
                cfg',
              )
        ]

    -- The rule's fields are written before its exceptions are appended one by one.
    unfoldable pub append_found :
        RuleUpdateInfo
        → RuleInfo
        → Option FalcoSource
        → Collector SinspVersion
        → Result (Collector SinspVersion)
    append_found info prev source c =
        let rule = append_fields info prev in
        elim (append_exceptions supported_operators source (value_or info.exceptions [])
          rule.exceptions) [
            | threw err exs ↦ threw err (write_rule info.name (record rule { exceptions = exs }) c)
            | done exs ↦ done (commit_rule info.name (record rule { exceptions = exs }) c)
          ]

    unfoldable pub append_rule :
        Configuration → RuleUpdateInfo → Collector SinspVersion → Result (Collector SinspVersion)
    append_rule cfg info c = elim (at info.name c.m_rule_infos) [
      | none ↦
          throw
            "Rule uses 'append' or 'override.<key>: append' but no rule by that name already exists"
            info.ctx c
      | some prev ↦
          if not (has_any_value info)
          then throw "Appended rule must have exceptions or condition property" info.ctx c
          else elim (find_source cfg prev) [
            | missing ↦ throw ("Unknown source " <> prev.source) info.ctx c
            | found source ↦ append_found info prev source c
          ]
    ]

  unfoldable pub selective_replace :
      Configuration → RuleUpdateInfo → Collector SinspVersion → Result (Collector SinspVersion)
  selective_replace cfg info c = elim (at info.name c.m_rule_infos) [
    | none ↦
        throw
          "An 'override.<key>: replace' to a rule was requested but no rule by that name already exists"
          info.ctx c
    | some prev ↦
        if not (has_any_value info)
        then throw "The rule must have at least one field that can be replaced" info.ctx c
        else elim (find_source cfg prev) [
          | missing ↦ throw ("Unknown source " <> prev.source) info.ctx c
          | found source ↦ done (commit_rule info.name (replace_fields info prev) c)
        ]
  ]

  unfoldable pub enable : RuleInfo → Collector SinspVersion → Result (Collector SinspVersion)
  enable info c = elim (at info.name c.m_rule_infos) [
    | none ↦ throw "Rule has 'enabled' key but no rule by that name already exists" info.ctx c
    | some prev ↦ done (write_rule info.name (record prev { enabled = info.enabled }) c)
  ]
