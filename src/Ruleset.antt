-- ===== src/Ruleset.antt =====
-- `indexable_ruleset` (userspace/engine/indexable_ruleset.h) with the wrappers of
-- `evttype_index_ruleset` (userspace/engine/evttype_index_ruleset.{h,cpp}).
pub mod Rulesets
pub mod Indexed
pub mod Enable
pub mod Run
pub mod Matches
pub mod Evttype
use falco.Prelude.{
  ℕ, zero, suc, ◌+◌, ◌-◌, ◌*◌, ◌/◌, ◌%◌, ◌^◌, ◌≤◌, ◌<◌, String, ◌<>◌, ◌≡◌, refl, sym, ap, ◌∙◌,
  subst, ◌≢◌, ◌↔◌, ◌⊎◌, inl, inr, ite, Bool, true, false, not, ◌&&◌, ◌||◌, Option, none, some, List,
  [], ◌∷◌, ◌++◌, map, arith, dec_lt, dec_le, ℕ_discrete, ltb, leb, if◌then◌else◌, ltb→lt, lt→ltb,
  leb→le, le→leb, tests, Bool-cases, Option-cases, Eq, ◌==◌, ==_self, ==_ne, ==_cases, nat_eq,
  string_eq, list_eq, contains, contains-append, nil-ne-cons, cons-ne-nil, length, get_elem?, set,
  replicate, take, drop, length-append, length-set, get_elem?-set_self, get_elem?-set_ne,
  get_elem?-append_lt, get_elem?-append_end, get_elem?-eq_some, get_elem?-lt, length-map,
  insert_sorted, erase, contains-insert_sorted, IsNodup, contains-erase, erase-IsNodup,
  append-IsNodup, IsIncreasing, insert_sorted-IsIncreasing, erase-IsIncreasing,
  IsIncreasing-IsNodup, ◌>>=◌, >>=-eq-some, take-append-drop, All, All-append, All-append_right,
  All-append_left, Member,
}
use falco.ByteString.{Bytes, codes}
use falco.Wildcard.{Outcome, returned, thrown, exhausted, matches_wildcard}
use falco.Rule.{FalcoRule}

-- `evttype_index_wrapper`. `m_filter` is the compiled filter of libsinsp, as what its `run` gives.
pub record Wrapper (Event : Type 0) : Type 0 where
  pub sc_codes : List ℕ
  pub event_codes : List ℕ
  pub m_filter : Event → Bool
  pub m_rule : FalcoRule

module _ {Event : Type 0} where
  abbrev pub wrapper_name : Wrapper Event → Bytes
  wrapper_name w = codes w.m_rule.name

  abbrev pub wrapper_tags : Wrapper Event → List String
  wrapper_tags w = w.m_rule.tags

-- A `shared_ptr` to a wrapper, by its address.
abbrev pub Pointer : Type 0
Pointer = ℕ

pub record RulesetFilters : Type 0 where
  pub m_ruleset_id : ℕ
  pub m_filter_by_event_type : List (List Pointer)
  pub m_filter_all_event_types : List Pointer
  pub m_filters : List Pointer

unfoldable pub new_ruleset_filters : ℕ → RulesetFilters
new_ruleset_filters id = record {
  m_ruleset_id = id;
  m_filter_by_event_type = [];
  m_filter_all_event_types = [];
  m_filters = [];
}

unfoldable pub add_wrapper_to_list : List Pointer → Pointer → List Pointer
add_wrapper_to_list wrappers wrap =
    if contains wrappers wrap then wrappers else wrappers ++ wrap ∷ []

unfoldable pub remove_wrapper_from_list : List Pointer → Pointer → List Pointer
remove_wrapper_from_list wrappers wrap =
    if contains wrappers wrap then erase wrap wrappers else wrappers

-- `v.resize(n)` of a shorter vector.
unfoldable pub resize : ℕ → List (List Pointer) → List (List Pointer)
resize zero v = v
resize (suc n) [] = [] ∷ resize n []
resize (suc n) (l ∷ v) = l ∷ resize n v

-- `v[i]` where it is in range, and no wrapper elsewhere.
abbrev pub entry : List (List Pointer) → ℕ → List Pointer
entry [] i = []
entry (l ∷ v) zero = l
entry (l ∷ v) (suc i) = entry v i

-- The body of the loop over the event codes.
unfoldable pub add_by_type : Pointer → ℕ → List (List Pointer) → List (List Pointer)
add_by_type wrap etype v =
    let v' = if leb (length v) etype then resize (etype + 1) v else v in
    set v' etype (add_wrapper_to_list (entry v' etype) wrap)

unfoldable pub add_by_types : Pointer → List ℕ → List (List Pointer) → List (List Pointer)
add_by_types wrap [] v = v
add_by_types wrap (etype ∷ codes) v = add_by_types wrap codes (add_by_type wrap etype v)

unfoldable pub remove_by_type : Pointer → ℕ → List (List Pointer) → List (List Pointer)
remove_by_type wrap etype v =
    if ltb etype (length v) then set v etype (remove_wrapper_from_list (entry v etype) wrap) else v

unfoldable pub remove_by_types : Pointer → List ℕ → List (List Pointer) → List (List Pointer)
remove_by_types wrap [] v = v
remove_by_types wrap (etype ∷ codes) v = remove_by_types wrap codes (remove_by_type wrap etype v)

abbrev pub is_empty {ℓ} : {A : Type ℓ} → List A → Bool
is_empty [] = true
is_empty (x ∷ xs) = false

module _ {Event : Type 0} (deref : Pointer → Wrapper Event) where
  unfoldable pub add_filter : Pointer → RulesetFilters → RulesetFilters
  add_filter wrap r =
      let codes = (deref wrap).event_codes in
      if is_empty codes
      then record r {
        m_filter_all_event_types = add_wrapper_to_list r.m_filter_all_event_types wrap;
        m_filters = insert_sorted wrap r.m_filters;
      }
      else record r {
        m_filter_by_event_type = add_by_types wrap codes r.m_filter_by_event_type;
        m_filters = insert_sorted wrap r.m_filters;
      }

  unfoldable pub remove_filter : Pointer → RulesetFilters → RulesetFilters
  remove_filter wrap r =
      let codes = (deref wrap).event_codes in
      if is_empty codes
      then record r {
        m_filter_all_event_types = remove_wrapper_from_list r.m_filter_all_event_types wrap;
        m_filters = erase wrap r.m_filters;
      }
      else record r {
        m_filter_by_event_type = remove_by_types wrap codes r.m_filter_by_event_type;
        m_filters = erase wrap r.m_filters;
      }

  -- `evttype_index_ruleset::run_wrappers` for the first match.
  unfoldable pub run_wrappers_first : Event → List Pointer → Option FalcoRule
  run_wrappers_first evt [] = none
  run_wrappers_first evt (wrap ∷ wrappers) =
      let rest = run_wrappers_first evt wrappers in
      if (deref wrap).m_filter evt then some (deref wrap).m_rule else rest

  -- `evttype_index_ruleset::run_wrappers` for all matches, pushed behind `matches`.
  unfoldable pub run_wrappers_all : Event → List Pointer → List FalcoRule → List FalcoRule × Bool
  run_wrappers_all evt [] matches = (matches, false)
  run_wrappers_all evt (wrap ∷ wrappers) matches =
      let matched = (deref wrap).m_filter evt in
      let (out, found) =
        run_wrappers_all evt wrappers
          (if matched then matches ++ (deref wrap).m_rule ∷ [] else matches) in
      (out, matched || found)
