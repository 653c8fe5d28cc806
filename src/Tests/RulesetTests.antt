-- ===== src/Tests/RulesetTests.antt =====
-- Rulesets: three filters, one of them asked about every event type.
use falco.Prelude.{
  ℕ, zero, suc, String, ◌≡◌, refl, Bool, true, false, not, ◌&&◌, ◌||◌, none, some, List, [], ◌∷◌,
  arith, ℕ_discrete, if◌then◌else◌, ◌==◌, nat_eq, string_eq, list_eq, contains, insert_sorted,
}
use falco.ByteString.{find, starts_with}
use falco.Rule.{FalcoRule}
use falco.Ruleset.{
  Wrapper, wrapper_name, Pointer, RulesetFilters, new_ruleset_filters, add_filter, remove_filter,
  run_wrappers_first, is_empty,
}
use falco.Ruleset.Rulesets.{
  substring, matches_name, intersects, IndexableRuleset, grow, grow_to, set_filters, set_chosen,
  enable_disable, enable, enable_tags, disable_tags, wrappers_for, run_first, run_all,
}
use falco.Ruleset.Indexed.{IsIndexed, new-IsIndexed, add_filter-IsIndexed, remove_filter-IsIndexed}
use falco.Ruleset.{add_wrapper_to_list, resize, add_by_type, add_by_types}
use falco.Ruleset.Enable.{
  is_enabled, IsValid, is_enabled-enable, is_enabled-disable_tags-enable_tags,
}
use falco.Ruleset.Run.{applies, run_first_sound, run_first-none}
use falco.Ruleset.Matches.{rules_hit, outcome, run_all_lem}
use falco.Ruleset.Evttype.{Codes}

-- An event, by its type.
abbrev Event : Type 0
Event = ℕ

abbrev rule : ℕ → String → List String → FalcoRule
rule id name tags = record {
  id = id;
  source = "syscall";
  name = name;
  description = "";
  output = "";
  tags = tags;
  exception_fields = [];
  priority = 4;
  condition = none;
  filter = none;
}

abbrev wrapper : ℕ → Wrapper Event
wrapper zero = record {
  sc_codes = [];
  event_codes = 2 ∷ 4 ∷ [];
  m_filter = λ evt. evt == 4;
  m_rule = rule 0 "ab" ("net" ∷ []);
}
wrapper (suc zero) = record {
  sc_codes = [];
  event_codes = 4 ∷ [];
  m_filter = λ evt. true;
  m_rule = rule 1 "b" ("net" ∷ "disk" ∷ []);
}
wrapper (suc (suc n)) = record {
  sc_codes = [];
  event_codes = [];
  m_filter = λ evt. true;
  m_rule = rule 2 "c" [];
}

abbrev loaded : IndexableRuleset
loaded = record { m_rulesets = []; m_filters = 0 ∷ 1 ∷ 2 ∷ [] }

loaded-IsValid : IsValid wrapper loaded
loaded-IsValid = record { indexed = tt; ordered = omega arith }

abbrev enabled : RulesetFilters
enabled = record {
  m_ruleset_id = 0;
  m_filter_by_event_type = [] ∷ [] ∷ (0 ∷ []) ∷ [] ∷ (0 ∷ 1 ∷ []) ∷ [];
  m_filter_all_event_types = [];
  m_filters = 0 ∷ 1 ∷ [];
}

-- Every filter whose name has a b.
enable_b :
    enable wrapper (b'b' ∷ []) substring 0 loaded ≡ record loaded { m_rulesets = enabled ∷ [] }
unfolding enable enable_disable set_chosen set_filters grow_to grow matches_name find starts_with
    add_filter add_by_types add_by_type resize add_wrapper_to_list insert_sorted new_ruleset_filters
    ℕ_discrete
enable_b = refl

enabled-IsIndexed : IsIndexed wrapper enabled
unfolding add_filter add_by_types add_by_type resize add_wrapper_to_list insert_sorted
    new_ruleset_filters ℕ_discrete
enabled-IsIndexed =
    add_filter-IsIndexed wrapper 1 _
      (add_filter-IsIndexed wrapper 0 (new_ruleset_filters 0) (new-IsIndexed wrapper 0))

first_of_type_4 : run_first wrapper (λ e. e) 4 enabled ≡ some (rule 0 "ab" ("net" ∷ []))
unfolding run_first run_wrappers_first wrappers_for ℕ_discrete
first_of_type_4 = refl

add_filter-IsIndexed_example : IsIndexed wrapper (add_filter wrapper 2 enabled)
add_filter-IsIndexed_example = add_filter-IsIndexed wrapper 2 enabled enabled-IsIndexed

remove_filter-IsIndexed_example : IsIndexed wrapper (remove_filter wrapper 0 enabled)
remove_filter-IsIndexed_example = remove_filter-IsIndexed wrapper 0 enabled enabled-IsIndexed

by_name : Pointer → Bool
by_name wrap = matches_name substring (b'b' ∷ []) (wrapper_name (wrapper wrap))

is_enabled-enable_example : is_enabled 0 1 (enable wrapper (b'b' ∷ []) substring 0 loaded) ≡ (
    ◌==◌ {A = ℕ} 0 0
      && (contains loaded.m_filters 1 && matches_name substring (b'b' ∷ []) (b'b' ∷ []))
    || is_enabled 0 1 loaded)
is_enabled-enable_example = is_enabled-enable wrapper (b'b' ∷ []) substring 0 0 1 loaded

abbrev two_enabled : IndexableRuleset
two_enabled = record { m_rulesets = enabled ∷ []; m_filters = 0 ∷ 1 ∷ 2 ∷ [] }

two_enabled-IsValid : IsValid wrapper two_enabled
two_enabled-IsValid = record { indexed = (enabled-IsIndexed, tt); ordered = omega arith }

is_enabled-disable_tags-enable_tags_example :
    is_enabled 0 1
      (disable_tags wrapper ("disk" ∷ []) 0 (enable_tags wrapper ("net" ∷ []) 0 loaded))
    ≡ (not (contains loaded.m_filters 1 && intersects ("disk" ∷ []) ("net" ∷ "disk" ∷ []))
        && (contains loaded.m_filters 1 && intersects ("net" ∷ []) ("net" ∷ "disk" ∷ [])
            || is_enabled 0 1 loaded))
is_enabled-disable_tags-enable_tags_example =
    is_enabled-disable_tags-enable_tags wrapper ("net" ∷ []) ("disk" ∷ []) 0 1 loaded loaded-IsValid

run_first_sound_example :
    (q : Pointer) × (applies wrapper 4 q enabled ≡ true)
    × ((wrapper q).m_filter 4 ≡ true)
    × ((wrapper q).m_rule ≡ rule 0 "ab" ("net" ∷ []))
run_first_sound_example =
    run_first_sound wrapper (λ e. e) 4 enabled (rule 0 "ab" ("net" ∷ [])) enabled-IsIndexed
      first_of_type_4

none_of_type_2 : run_first wrapper (λ e. e) 2 enabled ≡ none
unfolding run_first run_wrappers_first wrappers_for ℕ_discrete
none_of_type_2 = refl

applies_0 : applies wrapper 2 0 enabled ≡ true
unfolding ℕ_discrete
applies_0 = refl

run_first-none_example : (wrapper 0).m_filter 2 ≡ false
run_first-none_example =
    run_first-none wrapper (λ e. e) 2 enabled enabled-IsIndexed none_of_type_2 0 applies_0

run_all_lem_example : run_all wrapper (λ e. e) 4 enabled [] ≡ (
    let hits = rules_hit wrapper 4 (0 ∷ 1 ∷ []) in
    let others = rules_hit wrapper 4 [] in
    if is_empty hits then outcome [] others else outcome [] hits)
run_all_lem_example = run_all_lem wrapper (λ e. e) 4 enabled []

enabled_named :
    (q : Pointer) → contains (0 ∷ 1 ∷ []) q ≡ true → is_empty (wrapper q).event_codes ≡ false
enabled_named zero h = refl
enabled_named (suc zero) h = refl
enabled_named (suc (suc n)) h = ground arith

abbrev codes_of : Codes
codes_of = record {
  ppm_sc_codes = λ e. 3 ∷ [];
  ppm_event_codes = λ e. 5 ∷ [];
  plugin_event = 322;
  async_event = 402;
  syscall_source = "syscall";
}
