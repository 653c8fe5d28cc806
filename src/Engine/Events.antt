-- ===== src/Engine/Events.antt =====
-- userspace/engine/falco_engine.cpp: events are processed, and the plugins that the rules need are
-- checked.
use falco.Prelude.{
  ℕ, String, ◌<>◌, Bool, true, false, not, Option, none, some, List, [], ◌∷◌, if◌then◌else◌, ◌==◌,
  nat_eq, string_eq, list_eq, set,
}
use falco.LoadInfo.{Requirement}
use falco.RuleInfo.{is_empty_text}
use falco.Rule.{Priority, FalcoRule}
use falco.Stats.{StatsManager, on_event}
use falco.Collector.{SinspVersions}
use falco.Engine.{FilterRuleset, EngineSource, FalcoEngine, find_source_at}

pub data RuleMatching : Type 0 where
  first_match all_matches : RuleMatching

pub record RuleResult (Event : Type 0) : Type 0 where
  pub evt : Event
  pub matched_rule : String
  pub source : String
  pub priority_num : Priority
  pub format : String
  pub exception_fields : List String
  pub tags : List String

-- What the processing of an event gives: the results, the null pointer, or an exception; with what
-- the engine is then.
pub data Processed (E A : Type 0) : Type 0 where
  results : A → E → Processed E A
  no_match : E → Processed E A
  unknown_source : E → Processed E A
  unknown_rule : E → Processed E A

module _ {Event : Type 0} where
  abbrev pub result_of : Event → FalcoRule → RuleResult Event
  result_of ev r = record {
    evt = ev;
    matched_rule = r.name;
    source = r.source;
    priority_num = r.priority;
    format = r.output;
    exception_fields = r.exception_fields;
    tags = r.tags;
  }

  -- The loop over the rules that matched, of which each is counted; `none` is the exception of the
  -- statistics for a rule that was not loaded.
  unfoldable pub collect_results :
      Event → List FalcoRule → StatsManager → Option (List (RuleResult Event)) × StatsManager
  collect_results ev [] stats = (some [], stats)
  collect_results ev (r ∷ rs) stats = elim (on_event r stats) [
    | none ↦ (none, stats)
    | some stats' ↦
        let (res, stats'') = collect_results ev rs stats' in
        (elim res [ none ↦ none | some rest ↦ some (result_of ev r ∷ rest) ], stats'')
  ]

abbrev pub default_rule : FalcoRule
default_rule = record {
  id = 0;
  source = "";
  name = "";
  description = "";
  output = "";
  tags = [];
  exception_fields = [];
  priority = 7;
  condition = none;
  filter = none;
}

-- `resize(1)`
abbrev pub resize_one : List FalcoRule → List FalcoRule
resize_one [] = default_rule ∷ []
resize_one (r ∷ rs) = r ∷ []

module _ {R SinspVersion : Type 0} where
  -- `m_rules` of the source.
  unfoldable pub set_matches :
      ℕ → EngineSource R → List FalcoRule → FalcoEngine R SinspVersion → FalcoEngine R SinspVersion
  set_matches source_idx src matches e = record e {
    m_sources = record e.m_sources {
      m_entries = set e.m_sources.m_entries source_idx (record src { m_rules = matches });
    };
  }

  unfoldable pub finish_event :
      {Event : Type 0}
      → Event
      → List FalcoRule
      → FalcoEngine R SinspVersion
      → Processed (FalcoEngine R SinspVersion) (List (RuleResult Event))
  finish_event ev matches e =
      let (res, stats) = collect_results ev matches e.m_rule_stats_manager in
      let e' = record e { m_rule_stats_manager = stats } in
      elim res [ none ↦ unknown_rule e' | some rest ↦ results rest e' ]

module _ {R SinspVersion Event : Type 0} (ops : FilterRuleset R Event) where
  -- All rules: the vector is cleared, and then filled by the run.
  unfoldable pub match_all :
      ℕ
      → Event
      → (ruleset_id : ℕ) → EngineSource R
      → FalcoEngine R SinspVersion
      → Processed (FalcoEngine R SinspVersion) (List (RuleResult Event))
  match_all source_idx ev ruleset_id src e =
      let (matches, found) = ops.run_matches ev ruleset_id src.filter_ruleset [] in
      let e' = set_matches source_idx src matches e in
      if found then finish_event ev matches e' else no_match e'

  -- The first rule: it is written to the one element of the vector, which keeps a rule where none matches.
  unfoldable pub match_first :
      ℕ
      → Event
      → (ruleset_id : ℕ) → EngineSource R
      → FalcoEngine R SinspVersion
      → Processed (FalcoEngine R SinspVersion) (List (RuleResult Event))
  match_first source_idx ev ruleset_id src e = elim (ops.run ev ruleset_id src.filter_ruleset) [
    | none ↦ no_match (set_matches source_idx src (resize_one src.m_rules) e)
    | some r ↦ finish_event ev (r ∷ []) (set_matches source_idx src (r ∷ []) e)
  ]

  -- `should_drop` is what the sampling decides.
  unfoldable pub process_event :
      (should_drop : Bool)
      → (source_idx : ℕ) → Event
      → (ruleset_id : ℕ) → RuleMatching
      → FalcoEngine R SinspVersion
      → Processed (FalcoEngine R SinspVersion) (List (RuleResult Event))
  process_event should_drop source_idx ev ruleset_id strategy e =
      elim (find_source_at source_idx e) [
        | none ↦ unknown_source e
        | some src ↦
            let all = match_all source_idx ev ruleset_id src e in
            let first = match_first source_idx ev ruleset_id src e in
            if should_drop
            then no_match e
            else elim strategy [ all_matches ↦ all | first_match ↦ first ]
      ]

module _ {SinspVersion : Type 0} (sinsp : SinspVersions SinspVersion) where
  -- Whether a loaded plugin satisfies a requirement of its name, and the error where it does not.
  unfoldable pub check_plugin : Requirement → (plugin : Requirement) → Bool × String
  check_plugin req plugin =
      if not (sinsp.is_valid_version (sinsp.sinsp_version plugin.version))
      then (
        false,
        "Plugin '"
            <> (plugin.name <> ("' has invalid version string '" <> (plugin.version <> "'"))),
      )
      else if not (
          sinsp.compatible_with (sinsp.sinsp_version plugin.version)
            (sinsp.sinsp_version req.version))
      then (
        false,
        "Plugin '"
            <> (plugin.name
                <> ("' version '"
                    <> (plugin.version
                        <> ("' is not compatible with required plugin version '"
                            <> (req.version <> "'"))))),
      )
      else (true, "")

  unfoldable pub find_plugin : List Requirement → (name : String) → Option Requirement
  find_plugin [] name = none
  find_plugin (plugin ∷ plugins) name =
      let rest = find_plugin plugins name in if name == plugin.name then some plugin else rest

  -- The first alternative of which a plugin is loaded decides.
  unfoldable pub check_plugin_requirement_alternatives :
      (plugins alternatives : List Requirement) → Bool × String
  check_plugin_requirement_alternatives plugins [] = (false, "")
  check_plugin_requirement_alternatives plugins (req ∷ reqs) = elim (find_plugin plugins req.name) [
    | none ↦ check_plugin_requirement_alternatives plugins reqs
    | some plugin ↦ check_plugin req plugin
  ]

  unfoldable pub join_requirements : List Requirement → (err : String) → String
  join_requirements [] err = err
  join_requirements (req ∷ reqs) err = join_requirements reqs (
      err
      <> ((if is_empty_text err then "" else ", ")
          <> (req.name <> (" (>= " <> (req.version <> ")")))))

  unfoldable pub check_plugin_requirements :
      (plugins : List Requirement) → (required : List (List Requirement)) → Bool × String
  check_plugin_requirements plugins [] = (true, "")
  check_plugin_requirements plugins (alternatives ∷ required) =
      let (satisfied, err) = check_plugin_requirement_alternatives plugins alternatives in
      let rest = check_plugin_requirements plugins required in
      if satisfied then rest else (
        false,
        if is_empty_text err
            then "Plugin requirement not satisfied, must load one of: "
              <> join_requirements alternatives ""
            else err,
      )
