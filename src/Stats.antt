-- ===== src/Stats.antt =====
-- userspace/engine/stats_manager.cpp: the counters of the detected events.
pub mod Totals
use falco.Prelude.{
  ℕ, zero, suc, ◌+◌, ◌-◌, ◌*◌, ◌/◌, ◌%◌, ◌^◌, ◌≤◌, ◌<◌, String, ◌<>◌, ◌≡◌, refl, sym, ap, ◌∙◌,
  subst, ◌≢◌, ◌↔◌, ◌⊎◌, inl, inr, ite, Bool, true, false, not, ◌&&◌, ◌||◌, Option, none, some, List,
  [], ◌∷◌, ◌++◌, map, arith, dec_lt, dec_le, ℕ_discrete, ltb, leb, if◌then◌else◌, ltb→lt, lt→ltb,
  leb→le, le→leb, tests, Bool-cases, Option-cases, Eq, ◌==◌, ==_self, ==_ne, ==_cases, nat_eq,
  string_eq, list_eq, contains, contains-append, nil-ne-cons, cons-ne-nil, length, get_elem?, set,
  replicate, take, drop, length-append, length-set, get_elem?-set_self, get_elem?-set_ne,
  get_elem?-append_lt, get_elem?-append_end, get_elem?-eq_some, get_elem?-lt, length-map,
  insert_sorted, erase, contains-insert_sorted, IsNodup, contains-erase, erase-IsNodup,
  append-IsNodup, IsIncreasing, insert_sorted-IsIncreasing, erase-IsIncreasing,
  IsIncreasing-IsNodup, ◌>>=◌, >>=-eq-some, take-append-drop, All, All-append, All-append_right,
  All-append_left, Member,
}
use falco.Rule.{FalcoRule}

-- `uint64_t`
abbrev pub add_one : ℕ → ℕ
add_one n = (n + 1) % 2 ^ 64

pub record StatsManager : Type 0 where
  pub m_total : ℕ
  pub m_by_priority : List ℕ
  pub m_by_rule_id : List ℕ

abbrev pub new_stats : StatsManager
new_stats = record { m_total = 0; m_by_priority = []; m_by_rule_id = [] }

unfoldable pub clear : StatsManager → StatsManager
clear s = record { m_total = 0; m_by_priority = []; m_by_rule_id = [] }

-- `while (v.size() <= n)`, with as many turns as are missing.
unfoldable pub push_zeros : ℕ → List ℕ → List ℕ
push_zeros zero v = v
push_zeros (suc missing) v = push_zeros missing (v ++ 0 ∷ [])

unfoldable pub extend : ℕ → List ℕ → List ℕ
extend n v = push_zeros (n + 1 - length v) v

unfoldable pub on_rule_loaded : FalcoRule → StatsManager → StatsManager
on_rule_loaded rule s = record s {
  m_by_rule_id = extend rule.id s.m_by_rule_id;
  m_by_priority = extend rule.priority s.m_by_priority;
}

-- `v[i]->fetch_add(1)` where it is in range
abbrev pub fetch_add : ℕ → List ℕ → List ℕ
fetch_add i [] = []
fetch_add zero (n ∷ v) = add_one n ∷ v
fetch_add (suc i) (n ∷ v) = n ∷ fetch_add i v

-- `none` is the `falco_exception` of a rule that was not loaded.
unfoldable pub on_event : FalcoRule → StatsManager → Option StatsManager
on_event rule s =
    if leb (length s.m_by_rule_id) rule.id || leb (length s.m_by_priority) rule.priority
    then none
    else some (record s {
      m_total = add_one s.m_total;
      m_by_rule_id = fetch_add rule.id s.m_by_rule_id;
      m_by_priority = fetch_add rule.priority s.m_by_priority;
    })
