-- ===== src/Ruleset/Rulesets.antt =====
-- The rulesets by their id, and the operations that `filter_ruleset` promises
-- (userspace/engine/indexable_ruleset.h, filter_ruleset.h).
use falco.Prelude.{
  ℕ, zero, suc, ◌+◌, ◌-◌, String, Bool, true, false, ◌&&◌, ◌||◌, Option, none, some, List, [], ◌∷◌,
  ◌++◌, ltb, if◌then◌else◌, ◌==◌, nat_eq, string_eq, list_eq, contains, length, get_elem?,
  insert_sorted,
}
use falco.ByteString.{Bytes, find}
use falco.Wildcard.{Outcome, returned, thrown, exhausted, matches_wildcard}
use falco.Rule.{FalcoRule}
use falco.Ruleset.{
  Wrapper, wrapper_name, wrapper_tags, Pointer, RulesetFilters, new_ruleset_filters, entry,
  add_filter, remove_filter, run_wrappers_first, run_wrappers_all, is_empty,
}

pub data MatchType : Type 0 where
  exact substring wildcard : MatchType

abbrev pub is_found : Option ℕ → Bool
is_found none = false
is_found (some pos) = true

-- `pos == 0`
abbrev pub is_start : Option ℕ → Bool
is_start none = false
is_start (some pos) = pos == 0

-- No call of `matches_wildcard` throws or runs out of fuel.
abbrev pub answer : Outcome → Bool
answer (returned b) = b
answer thrown = false
answer exhausted = false

unfoldable pub matches_name : MatchType → Bytes → Bytes → Bool
matches_name exact pattern name =
    is_empty pattern || (is_start (find pattern name) && length pattern == length name)
matches_name substring pattern name = is_empty pattern || is_found (find pattern name)
matches_name wildcard pattern name = answer (matches_wildcard pattern name)

-- `set_intersection` of two sets of tags, of which only the emptiness is read.
unfoldable pub intersects : List String → List String → Bool
intersects [] tags = false
intersects (t ∷ ts) tags = contains tags t || intersects ts tags

pub record IndexableRuleset : Type 0 where
  pub m_rulesets : List RulesetFilters
  pub m_filters : List Pointer

-- `while (m_rulesets.size() < id + 1) m_rulesets.emplace_back(...)`, by the rounds left.
unfoldable pub grow : ℕ → List RulesetFilters → List RulesetFilters
grow zero rs = rs
grow (suc n) rs = grow n (rs ++ new_ruleset_filters (length rs) ∷ [])

unfoldable pub grow_to : ℕ → List RulesetFilters → List RulesetFilters
grow_to ruleset_id rs = grow (ruleset_id + 1 - length rs) rs

abbrev pub update_at {ℓ} : {A : Type ℓ} → ℕ → (A → A) → List A → List A
update_at i f [] = []
update_at zero f (x ∷ xs) = f x ∷ xs
update_at (suc i) f (x ∷ xs) = x ∷ update_at i f xs

abbrev pub num_filters_at : Option RulesetFilters → ℕ
num_filters_at none = 0
num_filters_at (some r) = length r.m_filters

unfoldable pub add_wrapper : Pointer → IndexableRuleset → IndexableRuleset
add_wrapper wrap s = record s { m_filters = insert_sorted wrap s.m_filters }

-- `m_rulesets[i] = std::make_shared<ruleset_filters>(i)` for each i
fresh_from : ℕ → List RulesetFilters → List RulesetFilters
fresh_from i [] = []
fresh_from i (r ∷ rs) = new_ruleset_filters i ∷ fresh_from (i + 1) rs

unfoldable pub clear : IndexableRuleset → IndexableRuleset
unfolding fresh_from
clear s = record { m_rulesets = fresh_from 0 s.m_rulesets; m_filters = [] }

unfoldable pub enabled_count : ℕ → IndexableRuleset → IndexableRuleset × ℕ
enabled_count ruleset_id s =
    let rs = grow_to ruleset_id s.m_rulesets in
    (record s { m_rulesets = rs }, num_filters_at (get_elem? rs ruleset_id))

-- The first search's rule if it found one, else the second's.
abbrev pub either {ℓ} : {A : Type ℓ} → Option A → Option A → Option A
either none o = o
either (some a) o = some a

module _ {Event : Type 0} (deref : Pointer → Wrapper Event) where
  -- The loop over all filters: those that are chosen are enabled, or disabled.
  unfoldable pub set_filters :
      (Pointer → Bool) → Bool → List Pointer → RulesetFilters → RulesetFilters
  set_filters chosen enabled [] r = r
  set_filters chosen enabled (wrap ∷ wraps) r = set_filters chosen enabled wraps (
      if chosen wrap
      then if enabled then add_filter deref wrap r else remove_filter deref wrap r
      else r)

  unfoldable pub set_chosen : (Pointer → Bool) → Bool → ℕ → IndexableRuleset → IndexableRuleset
  set_chosen chosen enabled ruleset_id s = record s {
    m_rulesets =
        update_at ruleset_id (set_filters chosen enabled s.m_filters)
          (grow_to ruleset_id s.m_rulesets);
  }

  unfoldable pub enable_disable : Bytes → MatchType → Bool → ℕ → IndexableRuleset → IndexableRuleset
  enable_disable pattern match enabled =
      set_chosen (λ wrap. matches_name match pattern (wrapper_name (deref wrap))) enabled

  unfoldable pub enable_disable_tags : List String → Bool → ℕ → IndexableRuleset → IndexableRuleset
  enable_disable_tags tags enabled =
      set_chosen (λ wrap. intersects tags (wrapper_tags (deref wrap))) enabled

  unfoldable pub enable : Bytes → MatchType → ℕ → IndexableRuleset → IndexableRuleset
  enable pattern match = enable_disable pattern match true

  unfoldable pub disable : Bytes → MatchType → ℕ → IndexableRuleset → IndexableRuleset
  disable pattern match = enable_disable pattern match false

  unfoldable pub enable_tags : List String → ℕ → IndexableRuleset → IndexableRuleset
  enable_tags tags = enable_disable_tags tags true

  unfoldable pub disable_tags : List String → ℕ → IndexableRuleset → IndexableRuleset
  disable_tags tags = enable_disable_tags tags false

  -- The filters of the event's type; the code asks for none where there are none.
  unfoldable pub wrappers_for : ℕ → RulesetFilters → List Pointer
  wrappers_for etype r =
      if ltb etype (length r.m_filter_by_event_type)
        && ltb 0 (length (entry r.m_filter_by_event_type etype))
      then entry r.m_filter_by_event_type etype
      else []

  module _ (get_type : Event → ℕ) where
    unfoldable pub run_first : Event → RulesetFilters → Option FalcoRule
    run_first evt r = either (run_wrappers_first deref evt (wrappers_for (get_type evt) r)) (
        if ltb 0 (length r.m_filter_all_event_types)
        then run_wrappers_first deref evt r.m_filter_all_event_types
        else none)

    unfoldable pub run_all : Event → RulesetFilters → List FalcoRule → List FalcoRule × Bool
    run_all evt r matches =
        let (out, found) = run_wrappers_all deref evt (wrappers_for (get_type evt) r) matches in
        if found
        then (out, true)
        else if ltb 0 (length r.m_filter_all_event_types)
        then run_wrappers_all deref evt r.m_filter_all_event_types out
        else (out, false)

    -- `run(evt, match, id)`: the rule in `match`, `none` where it returns false.
    unfoldable pub run : Event → ℕ → IndexableRuleset → Option FalcoRule
    run evt ruleset_id s = elim (get_elem? s.m_rulesets ruleset_id) [
      | none ↦ none
      | some r ↦ run_first evt r
    ]

    -- `run(evt, matches, id)`
    unfoldable pub run_matches :
        Event → ℕ → IndexableRuleset → List FalcoRule → List FalcoRule × Bool
    run_matches evt ruleset_id s matches = elim (get_elem? s.m_rulesets ruleset_id) [
      | none ↦ (matches, false)
      | some r ↦ run_all evt r matches
    ]
