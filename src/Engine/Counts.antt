-- ===== src/Engine/Counts.antt =====
-- userspace/engine/falco_engine.cpp: `process_event` gives an alert for each rule that matched, and
-- counts it.
use falco.Prelude.{
  ℕ, ◌+◌, ◌%◌, ◌^◌, ◌<◌, ◌≡◌, refl, ap, ◌∙◌, inl, inr, false, Option, none, some, List, [], ◌∷◌,
  map, arith, if◌then◌else◌, Bool-cases, Option-cases, nat_eq, string_eq, list_eq, length, All,
}
use falco.Rule.{FalcoRule}
use falco.Stats.{StatsManager, add_one, on_rule_loaded, on_event, fetch_add}
use falco.Stats.Totals.{IsLoaded, length-extend, length-fetch_add}
use falco.Engine.{FilterRuleset, EngineSource, FalcoEngine, find_source_at}
use falco.Engine.Loading.{load_stats}
use falco.Engine.Events.{
  RuleMatching, first_match, all_matches, RuleResult, Processed, results, no_match, unknown_source,
  unknown_rule, result_of, collect_results, set_matches, finish_event, match_all, match_first,
  process_event,
}

load-IsLoaded :
    (r : FalcoRule) (rs : List FalcoRule) (s : StatsManager)
    → IsLoaded r s
    → IsLoaded r (load_stats rs s)
unfolding load_stats on_rule_loaded
load-IsLoaded r [] s l = l
load-IsLoaded r (q ∷ rs) s (i, p) = load-IsLoaded r rs (on_rule_loaded q s) (
  omega (arith, i, (length-extend q.id s.m_by_rule_id).1),
  omega (arith, p, (length-extend q.priority s.m_by_priority).1),
)

-- Every rule that is loaded can be counted.
pub load_stats-IsLoaded :
    (rs : List FalcoRule) (s : StatsManager) → All (λ r. IsLoaded r (load_stats rs s)) rs
unfolding load_stats on_rule_loaded
load_stats-IsLoaded [] s = tt
load_stats-IsLoaded (r ∷ rs) s = (
  load-IsLoaded r rs (on_rule_loaded r s)
      ((length-extend r.id s.m_by_rule_id).0, (length-extend r.priority s.m_by_priority).0),
  load_stats-IsLoaded rs (on_rule_loaded r s),
)

abbrev counted : FalcoRule → StatsManager → StatsManager
counted r s = record s {
  m_total = add_one s.m_total;
  m_by_rule_id = fetch_add r.id s.m_by_rule_id;
  m_by_priority = fetch_add r.priority s.m_by_priority;
}

on_event-loaded :
    (r : FalcoRule) (s : StatsManager) → IsLoaded r s → on_event r s ≡ some (counted r s)
unfolding on_event
on_event-loaded r s (i, p) = ground arith

counted-IsLoaded :
    (q : FalcoRule) (s : StatsManager) (rs : List FalcoRule)
    → All (λ r. IsLoaded r s) rs
    → All (λ r. IsLoaded r (counted q s)) rs
counted-IsLoaded q s [] h = tt
counted-IsLoaded q s (r ∷ rs) ((i, p), h) =
    ((rw length-fetch_add i, rw length-fetch_add p), counted-IsLoaded q s rs h)

abbrev pub alerts : {E A : Type 0} → Processed E (List A) → Option (List A)
alerts (results xs e) = some xs
alerts (no_match e) = some []
alerts (unknown_source e) = none
alerts (unknown_rule e) = none

abbrev pub leaves : {E A : Type 0} → Processed E A → E
leaves (results xs e) = e
leaves (no_match e) = e
leaves (unknown_source e) = e
leaves (unknown_rule e) = e

abbrev pub option_rules : Option FalcoRule → List FalcoRule
option_rules none = []
option_rules (some rule) = rule ∷ []

module _ {Event : Type 0} (ev : Event) where
  record Counts (rs : List FalcoRule) (s : StatsManager)
      (r : Option (List (RuleResult Event)) × StatsManager) : Type 0 where
    given : r.0 ≡ some (map (result_of ev) rs)
    total : r.1.m_total ≡ (s.m_total + length rs) % 2 ^ 64

  collect_results-Counts :
      (rs : List FalcoRule) (s : StatsManager)
      → s.m_total < 2 ^ 64
      → All (λ r. IsLoaded r s) rs
      → Counts rs s (collect_results ev rs s)
  unfolding collect_results
  collect_results-Counts [] s b h = record { given = refl; total = omega (arith, b) }
  collect_results-Counts (r ∷ rs) s b (l, h) =
      let rec = collect_results-Counts rs (counted r s) (omega arith) (counted-IsLoaded r s rs h) in
      rw (on_event-loaded r s l, collect_results, rec.given)
        (record { given = refl; total = omega (arith, rec.total) })

  module _ {R : Type 0} (ops : FilterRuleset R Event) where
    -- The rules of a run, whichever it is.
    abbrev pub matched : RuleMatching → (ruleset_id : ℕ) → R → List FalcoRule
    matched all_matches ruleset_id r =
        let (matches, found) = ops.run_matches ev ruleset_id r [] in if found then matches else []
    matched first_match ruleset_id r = option_rules (ops.run ev ruleset_id r)

  module _ {R SinspVersion : Type 0} where
    -- The alerts are those of the given rules, which are counted.
    pub record IsAlerted (rs : List FalcoRule) (e : FalcoEngine R SinspVersion)
        (p : Processed (FalcoEngine R SinspVersion) (List (RuleResult Event))) : Type 0 where
      pub given : alerts p ≡ some (map (result_of ev) rs)
      pub total :
          (leaves p).m_rule_stats_manager.m_total
          ≡ (e.m_rule_stats_manager.m_total + length rs) % 2 ^ 64

    finish_event-IsAlerted :
        (rs : List FalcoRule) (e e' : FalcoEngine R SinspVersion)
        → e'.m_rule_stats_manager ≡ e.m_rule_stats_manager
        → e.m_rule_stats_manager.m_total < 2 ^ 64
        → All (λ r. IsLoaded r e.m_rule_stats_manager) rs
        → IsAlerted rs e (finish_event ev rs e')
    unfolding finish_event
    finish_event-IsAlerted rs e e' q b h =
        let c = collect_results-Counts rs e.m_rule_stats_manager b h in
        rw (q, finish_event, c.given) (record { given = refl; total = rw q c.total })

  module _ {R SinspVersion : Type 0} (ops : FilterRuleset R Event) (idx ruleset_id : ℕ)
      (src : EngineSource R) (e : FalcoEngine R SinspVersion) where
    stopped :
        (e' : FalcoEngine R SinspVersion)
        → e'.m_rule_stats_manager ≡ e.m_rule_stats_manager
        → e.m_rule_stats_manager.m_total < 2 ^ 64
        → IsAlerted [] e (no_match e')
    stopped e' q b = record {
      given = refl;
      total = ap (λ (s : StatsManager). s.m_total) q ∙ omega (arith, b);
    }

    match_first-IsAlerted :
        e.m_rule_stats_manager.m_total < 2 ^ 64
        → All
            (λ r. IsLoaded r e.m_rule_stats_manager)
            (matched ops first_match ruleset_id src.filter_ruleset)
        → IsAlerted
            (matched ops first_match ruleset_id src.filter_ruleset)
            e
            (match_first ops idx ev ruleset_id src e)
    unfolding match_first set_matches
    match_first-IsAlerted b = elim (Option-cases (ops.run ev ruleset_id src.filter_ruleset)) [
      | inl q ↦ rw (q, matched, match_first) λ h. stopped _ refl b
      | inr (r, q) ↦ rw (q, matched, match_first) λ h. finish_event-IsAlerted (r ∷ []) e _ refl b h
    ]

    match_all-IsAlerted :
        e.m_rule_stats_manager.m_total < 2 ^ 64
        → All
            (λ r. IsLoaded r e.m_rule_stats_manager)
            (matched ops all_matches ruleset_id src.filter_ruleset)
        → IsAlerted
            (matched ops all_matches ruleset_id src.filter_ruleset)
            e
            (match_all ops idx ev ruleset_id src e)
    unfolding match_all set_matches
    match_all-IsAlerted b =
        elim (Bool-cases (ops.run_matches ev ruleset_id src.filter_ruleset []).1) [
          | inl q ↦ rw (q, match_all) λ h. finish_event-IsAlerted _ e _ refl b h
          | inr q ↦ rw (q, match_all) λ h. stopped _ refl b
        ]

    -- Where the source is known, the event is not dropped, and the rules that its ruleset gives are
    -- loaded, each gives its alert, in their order, and the total of the statistics grows by their
    -- number, modulo 2 ^ 64.
    pub process_event-IsAlerted :
        (strategy : RuleMatching)
        → find_source_at idx e ≡ some src
        → e.m_rule_stats_manager.m_total < 2 ^ 64
        → All
            (λ r. IsLoaded r e.m_rule_stats_manager)
            (matched ops strategy ruleset_id src.filter_ruleset)
        → IsAlerted
            (matched ops strategy ruleset_id src.filter_ruleset)
            e
            (process_event ops false idx ev ruleset_id strategy e)
    unfolding process_event
    process_event-IsAlerted first_match q b h = rw (q, process_event) (match_first-IsAlerted b h)
    process_event-IsAlerted all_matches q b h = rw (q, process_event) (match_all-IsAlerted b h)
