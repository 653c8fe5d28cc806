-- ===== src/Ruleset/Evttype.antt =====
-- `evttype_index_ruleset::add` and `filter_ruleset::add_compile_output`.
use falco.Prelude.{
  ℕ, String, ◌≡◌, refl, Bool, true, false, Option, List, [], ◌∷◌, arith, if◌then◌else◌, ◌==◌,
  ==_self, nat_eq, string_eq, list_eq, contains, insert_sorted, contains-insert_sorted,
}
use falco.Filter.{Expr}
use falco.Rule.{FalcoRule}
use falco.Ruleset.{Wrapper, is_empty}

-- `insert` into a set of event codes.
abbrev pub insert_code : ℕ → List ℕ → List ℕ
insert_code c s = insert_sorted c s

insert_code-non_empty : (a : ℕ) (s : List ℕ) → is_empty (insert_sorted a s) ≡ false
unfolding insert_sorted
insert_code-non_empty a [] = refl
insert_code-non_empty a (b ∷ s) = ground arith

-- What `libsinsp` gives: the codes of a condition, the two fixed event codes, and the name of the
-- syscall source.
pub record Codes : Type 0 where
  pub ppm_sc_codes : Option Expr → List ℕ
  pub ppm_event_codes : Option Expr → List ℕ
  pub plugin_event : ℕ
  pub async_event : ℕ
  pub syscall_source : String

module _ {Event : Type 0} (c : Codes) where
  -- The wrapper that `add` makes for a rule, with `filter` for what the compiled filter answers.
  unfoldable pub make_wrapper : FalcoRule → (Event → Bool) → Option Expr → Wrapper Event
  make_wrapper rule filter condition =
      if rule.source == c.syscall_source
      then record {
        sc_codes = c.ppm_sc_codes condition;
        event_codes = insert_code c.async_event (c.ppm_event_codes condition);
        m_filter = filter;
        m_rule = rule;
      }
      else record {
        sc_codes = [];
        event_codes = insert_code c.async_event (c.plugin_event ∷ []);
        m_filter = filter;
        m_rule = rule;
      }

  -- Every wrapper is asked about the asynchronous events, so none stands in the list for all types.
  pub event_codes-make_wrapper :
      (rule : FalcoRule) (filter : Event → Bool) (condition : Option Expr)
      → (contains (make_wrapper rule filter condition).event_codes c.async_event ≡ true)
        × (is_empty (make_wrapper rule filter condition).event_codes ≡ false)
  unfolding make_wrapper
  event_codes-make_wrapper rule filter condition = ground (
    arith,
    contains-insert_sorted c.async_event c.async_event (c.ppm_event_codes condition),
    contains-insert_sorted c.async_event c.async_event (c.plugin_event ∷ []),
    insert_code-non_empty c.async_event (c.ppm_event_codes condition),
    insert_code-non_empty c.async_event (c.plugin_event ∷ []),
    ==_self c.async_event,
  )
