-- ===== src/Ruleset/Enable.antt =====
-- Enabling and disabling by name or by tags, against the set of enabled filters of each ruleset.
use falco.Prelude.{
  ℕ, zero, suc, ◌+◌, ◌-◌, ◌<◌, String, ◌≡◌, refl, ◌∙◌, inl, inr, Bool, true, false, not, ◌&&◌, ◌||◌,
  Option, none, some, List, [], ◌∷◌, ◌++◌, arith, if◌then◌else◌, Bool-cases, ◌==◌, nat_eq,
  string_eq, list_eq, contains, length, get_elem?, length-append, IsIncreasing, All, All-append,
}
use falco.ByteString.{Bytes}
use falco.Ruleset.{
  Wrapper, wrapper_name, wrapper_tags, Pointer, RulesetFilters, new_ruleset_filters, remove_filter,
}
use falco.Ruleset.Rulesets.{
  MatchType, matches_name, intersects, IndexableRuleset, grow, grow_to, update_at, set_filters,
  set_chosen, enable_disable, enable_disable_tags, enable, disable, enable_tags, disable_tags,
}
use falco.Ruleset.Indexed.{
  IsIndexed, new-IsIndexed, m_filters-add_filter, m_filters-remove_filter, add_filter-IsIndexed,
  remove_filter-IsIndexed,
}

abbrev enabled_in : Option RulesetFilters → Pointer → Bool
enabled_in none q = false
enabled_in (some r) q = contains r.m_filters q

-- The filter is enabled in the ruleset with the id.
abbrev pub is_enabled : ℕ → Pointer → IndexableRuleset → Bool
is_enabled id q s = enabled_in (get_elem? s.m_rulesets id) q

-- Every ruleset is indexed, and the set of all filters has no pointer twice.
pub record IsValid {Event : Type 0} (deref : Pointer → Wrapper Event) (s : IndexableRuleset)
    : Type 0 where
  pub indexed : All (IsIndexed deref) s.m_rulesets
  pub ordered : IsIncreasing s.m_filters

grow-enabled :
    (n : ℕ) (rs : List RulesetFilters) (j : ℕ) (q : Pointer)
    → enabled_in (get_elem? (grow n rs) j) q ≡ enabled_in (get_elem? rs j) q
unfolding grow new_ruleset_filters
grow-enabled zero rs j q = refl
grow-enabled (suc n) rs j q =
    grow-enabled n (rs ++ new_ruleset_filters (length rs) ∷ []) j q ∙ one rs j (length rs)
  where
    one :
        (xs : List RulesetFilters) (i k : ℕ)
        → enabled_in (get_elem? (xs ++ new_ruleset_filters k ∷ []) i) q
          ≡ enabled_in (get_elem? xs i) q
    one [] zero k = refl
    one [] (suc i) k = refl
    one (x ∷ xs) zero k = refl
    one (x ∷ xs) (suc i) k = one xs i k

length-grow : (n : ℕ) (rs : List RulesetFilters) → length (grow n rs) ≡ n + length rs
unfolding grow
length-grow zero rs = omega arith
length-grow (suc n) rs =
    let next : List RulesetFilters = rs ++ new_ruleset_filters (length rs) ∷ [] in
    omega (arith, length-grow n next, length-append rs (new_ruleset_filters (length rs) ∷ []))

module _ {Event : Type 0} (deref : Pointer → Wrapper Event) where
  grow-IsIndexed :
      (n : ℕ) (rs : List RulesetFilters)
      → All (IsIndexed deref) rs
      → All (IsIndexed deref) (grow n rs)
  unfolding grow
  grow-IsIndexed zero rs h = h
  grow-IsIndexed (suc n) rs h =
      grow-IsIndexed n (rs ++ new_ruleset_filters (length rs) ∷ [])
        (All-append (IsIndexed deref) rs _ h (new-IsIndexed deref (length rs), tt))

  set_filters-IsIndexed :
      (chosen : Pointer → Bool) (enabled : Bool) (wraps : List Pointer) (r : RulesetFilters)
      → IsIndexed deref r
      → IsIndexed deref (set_filters deref chosen enabled wraps r)
  unfolding set_filters
  set_filters-IsIndexed chosen enabled [] r h = h
  set_filters-IsIndexed chosen true (wrap ∷ wraps) r h =
      set_filters-IsIndexed chosen true wraps _ (elim (Bool-cases (chosen wrap)) [
        | inl t ↦ rw t (add_filter-IsIndexed deref wrap r h)
        | inr t ↦ rw t h
      ])
  set_filters-IsIndexed chosen false (wrap ∷ wraps) r h =
      set_filters-IsIndexed chosen false wraps _ (elim (Bool-cases (chosen wrap)) [
        | inl t ↦ rw t (remove_filter-IsIndexed deref wrap r h)
        | inr t ↦ rw t h
      ])

  set_filters-true :
      (chosen : Pointer → Bool) (wraps : List Pointer) (r : RulesetFilters) (q : Pointer)
      → contains (set_filters deref chosen true wraps r).m_filters q
        ≡ (contains wraps q && chosen q || contains r.m_filters q)
  unfolding set_filters
  set_filters-true chosen [] r q = refl
  set_filters-true chosen (wrap ∷ wraps) r q =
      set_filters-true chosen wraps _ q ∙ ground (arith, m_filters-add_filter deref wrap q r)

  remove_if-IsIndexed :
      (b : Bool) (wrap : Pointer) (r : RulesetFilters)
      → IsIndexed deref r
      → IsIndexed deref (if b then remove_filter deref wrap r else r)
  remove_if-IsIndexed true wrap r h = remove_filter-IsIndexed deref wrap r h
  remove_if-IsIndexed false wrap r h = h

  remove_if :
      (b : Bool) (wrap q : Pointer) (r : RulesetFilters)
      → IsIndexed deref r
      → contains (if b then remove_filter deref wrap r else r).m_filters q
        ≡ (not (q == wrap && b) && contains r.m_filters q)
  remove_if true wrap q r h = ground (arith, m_filters-remove_filter deref wrap q r h)
  remove_if false wrap q r h = ground arith

  set_filters-false :
      (chosen : Pointer → Bool) (wraps : List Pointer) (r : RulesetFilters) (q : Pointer)
      → IsIndexed deref r
      → contains (set_filters deref chosen false wraps r).m_filters q
        ≡ (not (contains wraps q && chosen q) && contains r.m_filters q)
  unfolding set_filters
  set_filters-false chosen [] r q h = refl
  set_filters-false chosen (wrap ∷ wraps) r q h =
      set_filters-false chosen wraps _ q (remove_if-IsIndexed (chosen wrap) wrap r h)
      ∙ ground (arith, remove_if (chosen wrap) wrap q r h)

  update_at-IsIndexed :
      (f : RulesetFilters → RulesetFilters) (i : ℕ) (rs : List RulesetFilters)
      → ((r : RulesetFilters) → IsIndexed deref r → IsIndexed deref (f r))
      → All (IsIndexed deref) rs
      → All (IsIndexed deref) (update_at i f rs)
  update_at-IsIndexed f i [] k h = tt
  update_at-IsIndexed f zero (r ∷ rs) k h = (k r h.0, h.1)
  update_at-IsIndexed f (suc i) (r ∷ rs) k h = (h.0, update_at-IsIndexed f i rs k h.1)

  -- Whatever is chosen, the index of every ruleset stays equal to its set of enabled filters.
  pub set_chosen-IsValid :
      (chosen : Pointer → Bool) (enabled : Bool) (id : ℕ) (s : IndexableRuleset)
      → IsValid deref s
      → IsValid deref (set_chosen deref chosen enabled id s)
  unfolding set_chosen grow_to
  set_chosen-IsValid chosen enabled id s h = record {
    indexed =
        update_at-IsIndexed (set_filters deref chosen enabled s.m_filters) id _
          (set_filters-IsIndexed chosen enabled s.m_filters)
          (grow-IsIndexed (id + 1 - length s.m_rulesets) s.m_rulesets h.indexed);
    ordered = h.ordered;
  }

  m_filters-set_chosen :
      (chosen : Pointer → Bool) (enabled : Bool) (id : ℕ) (s : IndexableRuleset)
      → (set_chosen deref chosen enabled id s).m_filters ≡ s.m_filters
  unfolding set_chosen
  m_filters-set_chosen chosen enabled id s = refl

  at_true :
      (chosen : Pointer → Bool) (wraps : List Pointer) (i : ℕ) (rs : List RulesetFilters) (j : ℕ)
      (q : Pointer)
      → i < length rs
      → enabled_in (get_elem? (update_at i (set_filters deref chosen true wraps) rs) j) q
        ≡ (j == i && (contains wraps q && chosen q) || enabled_in (get_elem? rs j) q)
  at_true chosen wraps i [] j q h = elim h [ ]
  at_true chosen wraps zero (r ∷ rs) zero q h = ground (arith, set_filters-true chosen wraps r q)
  at_true chosen wraps zero (r ∷ rs) (suc j) q h = ground arith
  at_true chosen wraps (suc i) (r ∷ rs) zero q h = ground arith
  at_true chosen wraps (suc i) (r ∷ rs) (suc j) q h = ground (arith, at_true chosen wraps i rs j q)

  at_false :
      (chosen : Pointer → Bool) (wraps : List Pointer) (i : ℕ) (rs : List RulesetFilters) (j : ℕ)
      (q : Pointer)
      → All (IsIndexed deref) rs
      → enabled_in (get_elem? (update_at i (set_filters deref chosen false wraps) rs) j) q
        ≡ (not (j == i && (contains wraps q && chosen q)) && enabled_in (get_elem? rs j) q)
  at_false chosen wraps i [] j q h = ground arith
  at_false chosen wraps zero (r ∷ rs) zero q h =
      ground (arith, set_filters-false chosen wraps r q h.0)
  at_false chosen wraps zero (r ∷ rs) (suc j) q h = ground arith
  at_false chosen wraps (suc i) (r ∷ rs) zero q h = ground arith
  at_false chosen wraps (suc i) (r ∷ rs) (suc j) q h =
      ground (arith, at_false chosen wraps i rs j q h.1)

  grow_to-long : (id : ℕ) (rs : List RulesetFilters) → id < length (grow_to id rs)
  unfolding grow_to
  grow_to-long id rs = omega (arith, length-grow (id + 1 - length rs) rs)

  grow_to-enabled :
      (id : ℕ) (rs : List RulesetFilters) (j : ℕ) (q : Pointer)
      → enabled_in (get_elem? (grow_to id rs) j) q ≡ enabled_in (get_elem? rs j) q
  unfolding grow_to
  grow_to-enabled id rs j q = grow-enabled (id + 1 - length rs) rs j q

  set_chosen-true :
      (chosen : Pointer → Bool) (id j : ℕ) (q : Pointer) (s : IndexableRuleset)
      → is_enabled j q (set_chosen deref chosen true id s)
        ≡ (j == id && (contains s.m_filters q && chosen q) || is_enabled j q s)
  unfolding set_chosen
  set_chosen-true chosen id j q s =
      at_true chosen s.m_filters id (grow_to id s.m_rulesets) j q (grow_to-long id s.m_rulesets)
      ∙ rw grow_to-enabled refl

  set_chosen-false :
      (chosen : Pointer → Bool) (id j : ℕ) (q : Pointer) (s : IndexableRuleset)
      → IsValid deref s
      → is_enabled j q (set_chosen deref chosen false id s)
        ≡ (not (j == id && (contains s.m_filters q && chosen q)) && is_enabled j q s)
  unfolding set_chosen grow_to
  set_chosen-false chosen id j q s h =
      at_false chosen s.m_filters id (grow_to id s.m_rulesets) j q
        (grow-IsIndexed (id + 1 - length s.m_rulesets) s.m_rulesets h.indexed)
      ∙ rw (grow-enabled (id + 1 - length s.m_rulesets) s.m_rulesets j q) refl

  -- After `enable` a filter is enabled in a ruleset exactly if it was, or if the ruleset is the
  -- one asked for and the filter is known and its name matches the pattern.
  pub is_enabled-enable :
      (pattern : Bytes) (match : MatchType) (id j : ℕ) (q : Pointer) (s : IndexableRuleset)
      → is_enabled j q (enable deref pattern match id s) ≡ (
          j == id && (contains s.m_filters q && matches_name match pattern (wrapper_name (deref q)))
          || is_enabled j q s)
  unfolding enable enable_disable
  is_enabled-enable pattern match id j q s =
      set_chosen-true (λ wrap. matches_name match pattern (wrapper_name (deref wrap))) id j q s

  -- After `disable` a filter is enabled exactly if it was, and it is not one of those that the
  -- call names in that ruleset.
  pub is_enabled-disable :
      (pattern : Bytes) (match : MatchType) (id j : ℕ) (q : Pointer) (s : IndexableRuleset)
      → IsValid deref s
      → is_enabled j q (disable deref pattern match id s) ≡ (
          not (
            j == id
            && (contains s.m_filters q && matches_name match pattern (wrapper_name (deref q))))
          && is_enabled j q s)
  unfolding disable enable_disable
  is_enabled-disable pattern match id j q s h =
      set_chosen-false (λ wrap. matches_name match pattern (wrapper_name (deref wrap))) id j q s h

  -- Enabling some tags and disabling others leaves disabled what has a tag of the second, whatever
  -- tags of the first it has; all else is as the first call left it.
  pub is_enabled-disable_tags-enable_tags :
      (on off : List String) (id q : ℕ) (s : IndexableRuleset)
      → IsValid deref s
      → is_enabled id q (disable_tags deref off id (enable_tags deref on id s)) ≡ (
          not (contains s.m_filters q && intersects off (wrapper_tags (deref q)))
          && (contains s.m_filters q && intersects on (wrapper_tags (deref q))
              || is_enabled id q s))
  unfolding disable_tags enable_tags enable_disable_tags
  is_enabled-disable_tags-enable_tags on off id q s h = ground (
    arith,
    set_chosen-false (λ wrap. intersects off (wrapper_tags (deref wrap))) id id q
        (set_chosen deref (λ wrap. intersects on (wrapper_tags (deref wrap))) true id s)
        (set_chosen-IsValid (λ wrap. intersects on (wrapper_tags (deref wrap))) true id s h),
    set_chosen-true (λ wrap. intersects on (wrapper_tags (deref wrap))) id id q s,
    m_filters-set_chosen (λ wrap. intersects on (wrapper_tags (deref wrap))) true id s,
  )
