-- ===== src/Ruleset/Run.antt =====
-- What an event matches, against the set of enabled filters.
use mathlib.Core.Path.{ap₂}
use mathlib.Core.Option.{none-ne-some, some-injective}
use falco.Prelude.{
  ℕ, ◌≡◌, refl, sym, ap, ◌∙◌, ◌⊎◌, inl, inr, Bool, true, false, ◌&&◌, ◌||◌, Option, none, some,
  List, [], ◌∷◌, arith, ltb, if◌then◌else◌, Bool-cases, ==_self, nat_eq, string_eq, list_eq,
  contains, length,
}
use falco.Rule.{FalcoRule}
use falco.Ruleset.{Wrapper, Pointer, RulesetFilters, entry, run_wrappers_first, is_empty}
use falco.Ruleset.Rulesets.{wrappers_for, run_first, either}
use falco.Ruleset.Indexed.{IsIndexed, entry-past}

either-some {ℓ} :
    {A : Type ℓ} (o p : Option A) (m : A) → either o p ≡ some m → (o ≡ some m) ⊎ (p ≡ some m)
either-some none p m h = inr h
either-some (some a) p m h = inl h

either-none {ℓ} : {A : Type ℓ} (o p : Option A) → either o p ≡ none → (o ≡ none) × (p ≡ none)
either-none none p h = (refl, h)
either-none (some a) p h = absurd (none-ne-some a (sym h))

guarded :
    (b : Bool) (l : List Pointer)
    → (b ≡ false → l ≡ [])
    → (if b && ltb 0 (length l) then l else []) ≡ l
guarded true [] h = ground arith
guarded true (x ∷ l) h = ground arith
guarded false l h = sym (h refl)

module _ {Event : Type 0} (deref : Pointer → Wrapper Event) where
  -- A filter that the event satisfies, with the rule that it stands for.
  pub record Hit (evt : Event) (l : List Pointer) (m : FalcoRule) : Type 0 where
    pub wrap : Pointer
    pub listed : contains l wrap ≡ true
    pub satisfied : (deref wrap).m_filter evt ≡ true
    pub rule_of : (deref wrap).m_rule ≡ m

  first-Hit :
      (evt : Event) (l : List Pointer) (m : FalcoRule)
      → run_wrappers_first deref evt l ≡ some m
      → Hit evt l m
  unfolding run_wrappers_first
  first-Hit evt [] m h = absurd (none-ne-some m h)
  first-Hit evt (wrap ∷ l) m h = elim (Bool-cases ((deref wrap).m_filter evt)) [
    | inl t ↦ record {
      wrap = wrap;
      listed = ground (arith, ==_self wrap);
      satisfied = t;
      rule_of = some-injective _ m (rw t at h);
    }
    | inr t ↦
        let r : Hit evt l m = first-Hit evt l m (rw t at h) in
        record {
          wrap = r.wrap;
          listed = ground (arith, r.listed);
          satisfied = r.satisfied;
          rule_of = r.rule_of;
        }
  ]

  first-none :
      (evt : Event) (l : List Pointer) (q : Pointer)
      → run_wrappers_first deref evt l ≡ none
      → contains l q ≡ true
      → (deref q).m_filter evt ≡ false
  unfolding run_wrappers_first
  first-none evt [] q h c = cc
  first-none evt (wrap ∷ l) q h c = ground (arith, first-none evt l q)

  -- The filter is enabled and asked about events of the type.
  abbrev pub applies : ℕ → Pointer → RulesetFilters → Bool
  applies etype q r =
      contains r.m_filters q
      && (contains (deref q).event_codes etype || is_empty (deref q).event_codes)

  -- The guards of the two searches only skip empty lists.
  pub wrappers_for-entry :
      (etype : ℕ) (r : RulesetFilters)
      → wrappers_for deref etype r ≡ entry r.m_filter_by_event_type etype
  unfolding wrappers_for
  wrappers_for-entry etype r =
      guarded (ltb etype (length r.m_filter_by_event_type)) (entry r.m_filter_by_event_type etype)
        (λ f. entry-past r.m_filter_by_event_type etype (ground arith))

  first-guarded :
      (evt : Event) (l : List Pointer)
      → (if ltb 0 (length l) then run_wrappers_first deref evt l else none)
        ≡ run_wrappers_first deref evt l
  unfolding run_wrappers_first
  first-guarded evt [] = ground arith
  first-guarded evt (x ∷ l) = ground arith

  module _ (get_type : Event → ℕ) where
    run_first_lem :
        (evt : Event) (r : RulesetFilters)
        → run_first deref get_type evt r
          ≡ either
              (run_wrappers_first deref evt (entry r.m_filter_by_event_type (get_type evt)))
              (run_wrappers_first deref evt r.m_filter_all_event_types)
    unfolding run_first
    run_first_lem evt r =
        ap₂ either (ap (run_wrappers_first deref evt) (wrappers_for-entry (get_type evt) r))
          (first-guarded evt r.m_filter_all_event_types)

    -- The rule that a run gives is that of an enabled filter for the event's type that the event
    -- satisfies.
    pub run_first_sound :
        (evt : Event) (r : RulesetFilters) (m : FalcoRule)
        → IsIndexed deref r
        → run_first deref get_type evt r ≡ some m
        → (q : Pointer) × (applies (get_type evt) q r ≡ true)
          × ((deref q).m_filter evt ≡ true)
          × ((deref q).m_rule ≡ m)
    run_first_sound evt r m h e = elim (either-some _ _ m (sym (run_first_lem evt r) ∙ e)) [
      | inl f ↦
          let k : Hit evt (entry r.m_filter_by_event_type (get_type evt)) m = first-Hit evt _ m f in
          (
            k.wrap,
            ground (arith, h.by_type (get_type evt) k.wrap, k.listed),
            k.satisfied,
            k.rule_of,
          )
      | inr f ↦
          let k : Hit evt r.m_filter_all_event_types m = first-Hit evt _ m f in
          (k.wrap, ground (arith, h.all_types k.wrap, k.listed), k.satisfied, k.rule_of)
    ]

    -- A run finds no rule only if the event satisfies no enabled filter for its type.
    pub run_first-none :
        (evt : Event) (r : RulesetFilters)
        → IsIndexed deref r
        → run_first deref get_type evt r ≡ none
        → (q : Pointer) → applies (get_type evt) q r ≡ true
        → (deref q).m_filter evt ≡ false
    run_first-none evt r h e q a =
        let specific : List Pointer = entry r.m_filter_by_event_type (get_type evt) in
        let none_found =
          either-none (run_wrappers_first deref evt specific)
            (run_wrappers_first deref evt r.m_filter_all_event_types)
            (sym (run_first_lem evt r) ∙ e) in
        ground (
          arith,
          h.by_type (get_type evt) q,
          h.all_types q,
          first-none evt specific q none_found.0,
          first-none evt r.m_filter_all_event_types q none_found.1,
        )
