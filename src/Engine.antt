-- ===== src/Engine.antt =====
-- userspace/engine/falco_engine.cpp and falco_engine.h: the engine's sources, rulesets by name, and
-- enabled rules, over the operations that userspace/engine/filter_ruleset.h promises.
pub mod Events
pub mod Loading
pub mod Loaded
pub mod RulesetIds
pub mod Counts
use falco.Prelude.{
  ℕ, zero, suc, ◌+◌, ◌-◌, ◌*◌, ◌/◌, ◌%◌, ◌^◌, ◌≤◌, ◌<◌, String, ◌<>◌, ◌≡◌, refl, sym, ap, ◌∙◌,
  subst, ◌≢◌, ◌↔◌, ◌⊎◌, inl, inr, ite, Bool, true, false, not, ◌&&◌, ◌||◌, Option, none, some, List,
  [], ◌∷◌, ◌++◌, map, arith, dec_lt, dec_le, ℕ_discrete, ltb, leb, if◌then◌else◌, ltb→lt, lt→ltb,
  leb→le, le→leb, tests, Bool-cases, Option-cases, Eq, ◌==◌, ==_self, ==_ne, ==_cases, nat_eq,
  string_eq, list_eq, contains, contains-append, nil-ne-cons, cons-ne-nil, length, get_elem?, set,
  replicate, take, drop, length-append, length-set, get_elem?-set_self, get_elem?-set_ne,
  get_elem?-append_lt, get_elem?-append_end, get_elem?-eq_some, get_elem?-lt, length-map,
  insert_sorted, erase, contains-insert_sorted, IsNodup, contains-erase, erase-IsNodup,
  append-IsNodup, IsIncreasing, insert_sorted-IsIncreasing, erase-IsIncreasing,
  IsIncreasing-IsNodup, ◌>>=◌, >>=-eq-some, take-append-drop, All, All-append, All-append_right,
  All-append_left, Member,
}
use falco.ByteString.{Bytes, codes}
use falco.IndexedVector.{Index, IndexedVector, find, assign, insert, at, at_id, empty_vector}
use falco.Ruleset.Rulesets.{MatchType, exact, substring, wildcard}
use falco.LoadInfo.{FalcoSource}
use falco.Rule.{Priority, FalcoRule}
use falco.Stats.{StatsManager, new_stats}
use falco.Collector.{Collector}
use falco.Compiler.Infos.{CompileState}

-- `filter_ruleset`, with the rulesets of its factory.
pub record FilterRuleset (R Event : Type 0) : Type 0 where
  pub new_ruleset : R
  -- The rule, with its filter and its condition.
  pub add : FalcoRule → R → R
  pub enable : Bytes → MatchType → ℕ → R → R
  pub disable : Bytes → MatchType → ℕ → R → R
  pub enable_tags : List String → ℕ → R → R
  pub disable_tags : List String → ℕ → R → R
  pub enabled_count : ℕ → R → R × ℕ
  pub run : Event → ℕ → R → Option FalcoRule
  pub run_matches : Event → ℕ → R → List FalcoRule → List FalcoRule × Bool

-- `falco_source`, with what the loader knows about it and the rules that matched last.
pub record EngineSource (R : Type 0) : Type 0 where
  pub info : FalcoSource
  pub filter_ruleset : R
  pub m_rules : List FalcoRule

-- The pointer to the source of the system calls is that to its entry among the sources.
pub record FalcoEngine (R SinspVersion : Type 0) : Type 0 where
  pub m_sources : IndexedVector (EngineSource R)
  pub m_syscall_source_idx : Option ℕ
  pub m_known_rulesets : Index
  pub m_next_ruleset_id : ℕ
  pub m_default_ruleset_id : ℕ
  pub m_min_priority : Priority
  pub m_rules : IndexedVector FalcoRule
  pub m_rule_collector : Collector SinspVersion
  pub m_last_compile_output : Option CompileState
  pub m_rule_stats_manager : StatsManager
  pub m_extra : String
  pub m_replace_container_info : Bool

-- `m_next_ruleset_id++` of a `uint16_t`
abbrev pub next_ruleset_id : ℕ → ℕ
next_ruleset_id n = (n + 1) % 2 ^ 16

-- The ruleset of a source is changed.
abbrev pub change_ruleset : {R : Type 0} → (R → R) → EngineSource R → EngineSource R
change_ruleset f src = record src { filter_ruleset = f src.filter_ruleset }

-- The loop over the sources, with the sum of a `uint64_t`.
unfoldable pub count_enabled :
    {R Event : Type 0}
    → FilterRuleset R Event
    → (ruleset_id : ℕ) → List (EngineSource R)
    → (ret : ℕ) → List (EngineSource R) × ℕ
count_enabled ops ruleset_id [] ret = ([], ret)
count_enabled ops ruleset_id (src ∷ srcs) ret =
    let (counted, n) = ops.enabled_count ruleset_id src.filter_ruleset in
    let (rest, total) = count_enabled ops ruleset_id srcs ((ret + n) % 2 ^ 64) in
    (record src { filter_ruleset = counted } ∷ rest, total)

module _ {R SinspVersion : Type 0} where
  unfoldable pub find_ruleset_id :
      String → FalcoEngine R SinspVersion → FalcoEngine R SinspVersion × ℕ
  find_ruleset_id ruleset_name e = elim (find ruleset_name e.m_known_rulesets) [
    | some id ↦ (e, id)
    | none ↦
        let id = e.m_next_ruleset_id in
        (
          record e {
            m_known_rulesets = assign ruleset_name id e.m_known_rulesets;
            m_next_ruleset_id = next_ruleset_id id;
          },
          id,
        )
  ]

  -- The constructor, with the collector that it makes.
  unfoldable pub new_engine : Collector SinspVersion → FalcoEngine R SinspVersion
  new_engine collector =
      let e : FalcoEngine R SinspVersion = record {
        m_sources = empty_vector;
        m_syscall_source_idx = none;
        m_known_rulesets = [];
        m_next_ruleset_id = 0;
        m_default_ruleset_id = 0;
        m_min_priority = 7;
        m_rules = empty_vector;
        m_rule_collector = collector;
        m_last_compile_output = none;
        m_rule_stats_manager = new_stats;
        m_extra = "";
        m_replace_container_info = false;
      } in
      let r = find_ruleset_id "falco-default-ruleset" e in record r.0 { m_default_ruleset_id = r.1 }

  -- The ruleset of each source is changed.
  unfoldable pub each_ruleset : (R → R) → FalcoEngine R SinspVersion → FalcoEngine R SinspVersion
  each_ruleset f e = record e {
    m_sources = record e.m_sources { m_entries = map (change_ruleset f) e.m_sources.m_entries };
  }

  unfoldable pub set_min_priority :
      Priority → FalcoEngine R SinspVersion → FalcoEngine R SinspVersion
  set_min_priority priority e = record e { m_min_priority = priority }

  unfoldable pub set_extra : String → Bool → FalcoEngine R SinspVersion → FalcoEngine R SinspVersion
  set_extra extra replace_container_info e = record e {
    m_extra = extra;
    m_replace_container_info = replace_container_info;
  }

  -- `none` is the exception of an unknown source.
  unfoldable pub find_source : String → FalcoEngine R SinspVersion → Option (EngineSource R)
  find_source name e = at name e.m_sources

  unfoldable pub find_source_at : ℕ → FalcoEngine R SinspVersion → Option (EngineSource R)
  find_source_at index e = at_id index e.m_sources

  unfoldable pub is_source_valid : String → FalcoEngine R SinspVersion → Bool
  is_source_valid source e = elim (at source e.m_sources) [ none ↦ false | some src ↦ true ]

  module _ {Event : Type 0} (ops : FilterRuleset R Event) where
    -- The overload with a factory of rulesets.
    unfoldable pub add_source_with :
        FalcoSource → FalcoEngine R SinspVersion → FalcoEngine R SinspVersion × ℕ
    add_source_with info e =
        let src : EngineSource R = record {
          info = info;
          filter_ruleset = ops.new_ruleset;
          m_rules = [];
        } in
        let (sources, idx) = insert src info.name e.m_sources in
        (record e { m_sources = sources }, idx)

    -- The number of the source of the system calls is kept.
    unfoldable pub add_source :
        (syscall_source : String)
        → FalcoSource
        → FalcoEngine R SinspVersion
        → FalcoEngine R SinspVersion × ℕ
    add_source syscall_source info e =
        let (e', idx) = add_source_with info e in
        if info.name == syscall_source
        then (record e' { m_syscall_source_idx = some idx }, idx)
        else (e', idx)

    -- The overload by the ruleset's id.
    unfoldable pub enable_rule_in :
        MatchType
        → (name : String) → (enabled : Bool) → (ruleset_id : ℕ) → FalcoEngine R SinspVersion
        → FalcoEngine R SinspVersion
    enable_rule_in match name enabled ruleset_id e =
        each_ruleset
          (if enabled
            then ops.enable (codes name) match ruleset_id
            else ops.disable (codes name) match ruleset_id)
          e

    unfoldable pub enable_rule_by_tag_in :
        List String
        → (enabled : Bool) → (ruleset_id : ℕ) → FalcoEngine R SinspVersion
        → FalcoEngine R SinspVersion
    enable_rule_by_tag_in tags enabled ruleset_id e =
        each_ruleset
          (if enabled then ops.enable_tags tags ruleset_id else ops.disable_tags tags ruleset_id) e

    unfoldable pub enable_rule :
        (name : String)
        → (enabled : Bool) → (ruleset_name : String) → FalcoEngine R SinspVersion
        → FalcoEngine R SinspVersion
    enable_rule name enabled ruleset_name e =
        let r = find_ruleset_id ruleset_name e in enable_rule_in substring name enabled r.1 r.0

    unfoldable pub enable_rule_exact :
        (name : String)
        → (enabled : Bool) → (ruleset_name : String) → FalcoEngine R SinspVersion
        → FalcoEngine R SinspVersion
    enable_rule_exact name enabled ruleset_name e =
        let r = find_ruleset_id ruleset_name e in enable_rule_in exact name enabled r.1 r.0

    unfoldable pub enable_rule_wildcard :
        (name : String)
        → (enabled : Bool) → (ruleset_name : String) → FalcoEngine R SinspVersion
        → FalcoEngine R SinspVersion
    enable_rule_wildcard name enabled ruleset_name e =
        let r = find_ruleset_id ruleset_name e in enable_rule_in wildcard name enabled r.1 r.0

    unfoldable pub enable_rule_by_tag :
        (tags : List String)
        → (enabled : Bool) → (ruleset_name : String) → FalcoEngine R SinspVersion
        → FalcoEngine R SinspVersion
    enable_rule_by_tag tags enabled ruleset_name e =
        let r = find_ruleset_id ruleset_name e in enable_rule_by_tag_in tags enabled r.1 r.0

    unfoldable pub num_rules_for_ruleset :
        String → FalcoEngine R SinspVersion → FalcoEngine R SinspVersion × ℕ
    num_rules_for_ruleset ruleset_name e =
        let r = find_ruleset_id ruleset_name e in
        let (srcs, n) = count_enabled ops r.1 r.0.m_sources.m_entries 0 in
        (record r.0 { m_sources = record r.0.m_sources { m_entries = srcs } }, n)
