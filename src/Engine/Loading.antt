-- ===== src/Engine/Loading.antt =====
-- userspace/engine/falco_engine.cpp: rules are loaded, with `add_compile_output` of
-- userspace/engine/filter_ruleset.h.
use falco.Prelude.{
  to_string, ℕ, String, ◌<>◌, Bool, not, ◌&&◌, none, some, List, [], ◌∷◌, map, ltb, leb,
  if◌then◌else◌, ◌==◌, nat_eq, string_eq, list_eq,
}
use falco.ByteString.{codes}
use falco.IndexedVector.{insert, at, update, empty_vector}
use falco.LoadInfo.{Configuration, LoadResult, new_result}
use falco.RuleInfo.{RuleInfo}
use falco.Rule.{Priority, FalcoRule}
use falco.Ruleset.Rulesets.{exact}
use falco.Stats.{StatsManager, on_rule_loaded}
use falco.Stats
use falco.Compiler.Infos.{CompilerLibraries, CompileState}
use falco.Compiler.Rules.{compile}
use falco.Reader.{Libraries, Failure, std_exception, Outcome, returned, raised, failed, unfinished}
use falco.Reader.Documents.{read}
use falco.Engine.{FilterRuleset, EngineSource, FalcoEngine, change_ruleset}

-- What loading does: the result, with the engine; or an exception of another kind than the loader's.
-- `endless` is the end of the reader's or the compiler's fuel.
pub data Loading (E A : Type 0) : Type 0 where
  loaded : A → E → Loading E A
  load_failed : Failure → E → Loading E A
  endless : E → Loading E A

abbrev pub incompatible : FalcoRule → ℕ → Failure
incompatible rule id = std_exception (
    "Incompatible ID for rule: "
    <> (rule.name
        <> (" | compiled ID: " <> (to_string rule.id <> (" | stats_mgr ID: " <> to_string id)))))

unfoldable pub load_stats : List FalcoRule → StatsManager → StatsManager
load_stats [] s = s
load_stats (r ∷ rs) s = load_stats rs (on_rule_loaded r s)

unfoldable pub insert_rule :
    {R SinspVersion : Type 0}
    → FalcoRule
    → FalcoEngine R SinspVersion
    → FalcoEngine R SinspVersion × ℕ
insert_rule rule e =
    let (rules, id) = insert rule rule.name e.m_rules in (record e { m_rules = rules }, id)

-- The statistics start again where the result is successful.
unfoldable pub finish_loading :
    {R SinspVersion : Type 0}
    → LoadResult
    → FalcoEngine R SinspVersion
    → Loading (FalcoEngine R SinspVersion) LoadResult
finish_loading res e =
    if res.success
    then loaded res (record e {
      m_rule_stats_manager = load_stats e.m_rules.m_entries (Stats.clear e.m_rule_stats_manager);
    })
    else loaded res e

unfoldable pub finish_added :
    {R SinspVersion : Type 0}
    → LoadResult
    → Loading (FalcoEngine R SinspVersion) (Unit {0})
    → Loading (FalcoEngine R SinspVersion) LoadResult
finish_added res (loaded u e) = finish_loading res e
finish_added res (load_failed f e) = load_failed f e
finish_added res (endless e) = endless e

module _ {R Event : Type 0} (ops : FilterRuleset R Event) where
  unfoldable pub add_compile_output :
      List FalcoRule → (min_priority : Priority) → (source : String) → R → R
  add_compile_output [] min_priority source r = r
  add_compile_output (rule ∷ rules) min_priority source r =
      add_compile_output rules min_priority source
        (if leb rule.priority min_priority && (rule.source == source) then ops.add rule r else r)

module _ {R Event SinspVersion : Type 0} (ops : FilterRuleset R Event) where
  -- A new ruleset for each source, with its rules.
  unfoldable pub recreate : List FalcoRule → FalcoEngine R SinspVersion → FalcoEngine R SinspVersion
  recreate rules e = record e {
    m_rules = empty_vector;
    m_sources = record e.m_sources {
      m_entries =
          map
            (λ (src : EngineSource R).
              change_ruleset
                (λ r. add_compile_output ops rules e.m_min_priority src.info.name ops.new_ruleset)
                src)
            e.m_sources.m_entries;
    };
  }

  -- By default a rule is enabled or disabled in the default ruleset, but not below the least priority.
  unfoldable pub switch_rule :
      FalcoRule
      → (enabled : Bool) → EngineSource R
      → FalcoEngine R SinspVersion
      → FalcoEngine R SinspVersion
  switch_rule rule enabled source e = if ltb e.m_min_priority rule.priority then e else record e {
    m_sources =
        update rule.source
          (change_ruleset
            (if enabled
              then ops.enable (codes rule.name) exact e.m_default_ruleset_id
              else ops.disable (codes rule.name) exact e.m_default_ruleset_id)
            source)
          e.m_sources;
  }

  -- A rule of which the source was found.
  unfoldable pub add_found :
      FalcoRule
      → RuleInfo
      → EngineSource R
      → FalcoEngine R SinspVersion
      → Loading (FalcoEngine R SinspVersion) (Unit {0})
  add_found rule info source e =
      let (e', id) = insert_rule rule e in
      if not (id == rule.id)
      then load_failed (incompatible rule id) e'
      else loaded tt (switch_rule rule info.enabled source e')

  unfoldable pub add_rule :
      (name : String)
      → FalcoRule
      → FalcoEngine R SinspVersion
      → Loading (FalcoEngine R SinspVersion) (Unit {0})
  add_rule name rule e = elim (at rule.name e.m_rule_collector.m_rule_infos) [
    | none ↦ load_failed (std_exception ("can't find internal rule info at name: " <> name)) e
    | some info ↦ elim (at rule.source e.m_sources) [
      | none ↦ load_failed (std_exception ("Unknown event source " <> rule.source)) e
      | some source ↦ add_found rule info source e
    ]
  ]

  unfoldable pub add_rules :
      (name : String)
      → List FalcoRule
      → FalcoEngine R SinspVersion
      → Loading (FalcoEngine R SinspVersion) (Unit {0})
  add_rules name [] e = loaded tt e
  add_rules name (rule ∷ rules) e = elim (add_rule name rule e) [
    | loaded u e' ↦ add_rules name rules e'
    | load_failed f e' ↦ load_failed f e'
    | endless e' ↦ endless e'
  ]

  unfoldable pub add_output :
      (name : String)
      → CompileState
      → FalcoEngine R SinspVersion
      → Loading (FalcoEngine R SinspVersion) LoadResult
  add_output name out e =
      let e' = record e { m_last_compile_output = some out } in
      if not out.cfg.res.success
      then loaded out.cfg.res e'
      else finish_added out.cfg.res
          (add_rules name out.rules.m_entries (recreate out.rules.m_entries e'))

  unfoldable pub finish_compile :
      (name : String)
      → Outcome CompileState (Unit {0})
      → FalcoEngine R SinspVersion
      → Loading (FalcoEngine R SinspVersion) LoadResult
  finish_compile name (returned u out) e = add_output name out e
  finish_compile name (raised err out) e = add_output name out e
  finish_compile name (failed f out) e =
      load_failed f (record e { m_last_compile_output = some out })
  finish_compile name (unfinished out) e = endless (record e { m_last_compile_output = some out })

  module _ {Node : Type 0} (lib : Libraries Node SinspVersion) (clib : CompilerLibraries)
      (fuel : ℕ) where
    unfoldable pub configure : (content name : String) → FalcoEngine R SinspVersion → Configuration
    configure content name e = record {
      content = content;
      sources = record {
        m_entries = map (λ src. src.info) e.m_sources.m_entries;
        m_index = e.m_sources.m_index;
      };
      name = name;
      output_extra = e.m_extra;
      replace_output_container_info = e.m_replace_container_info;
      res = new_result name;
    }

    unfoldable pub load_rules :
        (content name : String)
        → FalcoEngine R SinspVersion
        → Loading (FalcoEngine R SinspVersion) LoadResult
    load_rules content name e =
        elim (read lib fuel (e.m_rule_collector, configure content name e)) [
          | none ↦ endless e
          | some (success, (collector, cfg)) ↦
              let e' = record e { m_rule_collector = collector } in
              if success
              then finish_compile name (compile clib cfg collector) e'
              else finish_loading cfg.res e'
        ]
