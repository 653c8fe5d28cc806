-- ===== src/Ruleset/Matches.antt =====
-- All the rules that an event matches, and the order of their search.
use mathlib.Core.List.{append-nil, append_assoc}
use falco.Prelude.{
  ℕ, ◌≡◌, refl, sym, ap, ◌∙◌, inl, inr, Bool, true, false, not, List, [], ◌∷◌, ◌++◌, arith, ltb,
  if◌then◌else◌, lt→ltb, Bool-cases, ==_self, nat_eq, string_eq, list_eq, contains, length,
}
use falco.Rule.{FalcoRule}
use falco.Ruleset.{Wrapper, Pointer, RulesetFilters, entry, run_wrappers_all, is_empty}
use falco.Ruleset.Rulesets.{run_all}
use falco.Ruleset.Indexed.{IsIndexed}
use falco.Ruleset.Run.{wrappers_for-entry}

all_absent : (l : List Pointer) → ((q : Pointer) → contains l q ≡ false) → l ≡ []
all_absent [] h = refl
all_absent (p ∷ l) h = ground (arith, h p, ==_self p)

-- What a search gives that adds the hits.
abbrev pub outcome : List FalcoRule → List FalcoRule → List FalcoRule × Bool
outcome matches hits = (matches ++ hits, not (is_empty hits))

same_outcome :
    (matches hits : List FalcoRule)
    → (if is_empty hits then outcome matches [] else outcome matches hits) ≡ outcome matches hits
same_outcome matches [] = refl
same_outcome matches (m ∷ hits) = refl

module _ {Event : Type 0} (deref : Pointer → Wrapper Event) where
  -- The rules of the filters that the event satisfies, in the order of the list.
  pub rules_hit : Event → List Pointer → List FalcoRule
  rules_hit evt [] = []
  rules_hit evt (wrap ∷ l) =
      let rest = rules_hit evt l in
      if (deref wrap).m_filter evt then (deref wrap).m_rule ∷ rest else rest

  run_wrappers_all_lem :
      (evt : Event) (l : List Pointer) (matches : List FalcoRule)
      → run_wrappers_all deref evt l matches ≡ outcome matches (rules_hit evt l)
  unfolding run_wrappers_all rules_hit
  run_wrappers_all_lem evt [] matches =
      ap (λ (x : List FalcoRule). (x, false)) (sym (append-nil matches))
  run_wrappers_all_lem evt (wrap ∷ l) matches = elim (Bool-cases ((deref wrap).m_filter evt)) [
    | inl t ↦
        let rule : FalcoRule = (deref wrap).m_rule in
        rw (t, run_wrappers_all, rules_hit)
          (ap (λ (o : List FalcoRule × Bool). (o.0, true))
              (run_wrappers_all_lem evt l (matches ++ rule ∷ []))
            ∙ ap (λ (x : List FalcoRule). (x, true))
                (append_assoc matches (rule ∷ []) (rules_hit evt l)))
    | inr t ↦ rw (t, run_wrappers_all, rules_hit) (run_wrappers_all_lem evt l matches)
  ]

  all-guarded :
      (evt : Event) (l : List Pointer) (matches : List FalcoRule)
      → (if ltb 0 (length l) then run_wrappers_all deref evt l matches else (matches, false))
        ≡ outcome matches (rules_hit evt l)
  unfolding rules_hit
  all-guarded evt [] matches = ap (λ (x : List FalcoRule). (x, false)) (sym (append-nil matches))
  all-guarded evt (x ∷ l) matches =
      rw (lt→ltb 0 (length (x ∷ l)) (omega arith)) (run_wrappers_all_lem evt (x ∷ l) matches)

  finish :
      (evt : Event) (hits : List FalcoRule) (l : List Pointer) (matches : List FalcoRule)
      → (if not (is_empty hits)
          then (matches ++ hits, true)
          else if ltb 0 (length l)
          then run_wrappers_all deref evt l (matches ++ hits)
          else (matches ++ hits, false))
        ≡ (if is_empty hits then outcome matches (rules_hit evt l) else outcome matches hits)
  finish evt [] l matches = rw (append-nil matches) (all-guarded evt l matches)
  finish evt (m ∷ hits) l matches = refl

  module _ (get_type : Event → ℕ) where
    -- A run for all matches adds the rules of all the filters of the event's type that the event
    -- satisfies, in the order of their list. Only where there are none it adds those of the
    -- filters for all event types. It answers whether it added any.
    pub run_all_lem :
        (evt : Event) (r : RulesetFilters) (matches : List FalcoRule)
        → run_all deref get_type evt r matches ≡ (
            let hits = rules_hit evt (entry r.m_filter_by_event_type (get_type evt)) in
            let others = rules_hit evt r.m_filter_all_event_types in
            if is_empty hits then outcome matches others else outcome matches hits)
    unfolding run_all
    run_all_lem evt r matches =
        let specific : List Pointer = entry r.m_filter_by_event_type (get_type evt) in
        rw (wrappers_for-entry deref (get_type evt) r, run_wrappers_all_lem evt specific matches)
          (finish evt (rules_hit evt specific) r.m_filter_all_event_types matches)

    -- Where every enabled filter names its event types, a run for all matches gives the rules of all
    -- the filters of the event's type that the event satisfies.
    pub run_all-every :
        (evt : Event) (r : RulesetFilters) (matches : List FalcoRule)
        → IsIndexed deref r
        → ((q : Pointer) → contains r.m_filters q ≡ true → is_empty (deref q).event_codes ≡ false)
        → run_all deref get_type evt r matches
          ≡ outcome matches (rules_hit evt (entry r.m_filter_by_event_type (get_type evt)))
    unfolding rules_hit
    run_all-every evt r matches h named =
        let hits : List FalcoRule = rules_hit evt (entry r.m_filter_by_event_type (get_type evt)) in
        let nothing : r.m_filter_all_event_types ≡ [] =
          all_absent r.m_filter_all_event_types (λ q. ground (arith, h.all_types q, named q)) in
        run_all_lem evt r matches
        ∙ ap
            (λ (l : List Pointer).
              if is_empty hits then outcome matches (rules_hit evt l) else outcome matches hits)
            nothing
        ∙ same_outcome matches hits
