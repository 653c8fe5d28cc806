-- ===== src/Stats/Totals.antt =====
-- userspace/engine/stats_manager.cpp: the counters by rule and by priority add up to the total.
use falco.Prelude.{
  ℕ, zero, suc, ◌+◌, ◌-◌, ◌^◌, ◌≤◌, ◌<◌, ◌≡◌, refl, ap, ◌∙◌, ◌↔◌, inl, inr, Bool, true, false, ◌||◌,
  Option, none, some, List, [], ◌∷◌, ◌++◌, arith, leb, Bool-cases, nat_eq, string_eq, list_eq,
  length, length-append, All,
}
use falco.Rule.{FalcoRule}
use falco.Stats.{
  add_one, StatsManager, clear, push_zeros, extend, on_rule_loaded, fetch_add, on_event,
}

abbrev pub sum : List ℕ → ℕ
sum [] = 0
sum (n ∷ v) = n + sum v

-- The counters by rule, and those by priority, add up to the total.
abbrev pub IsBalanced : StatsManager → Type 0
IsBalanced s = (sum s.m_by_rule_id ≡ s.m_total) × (sum s.m_by_priority ≡ s.m_total)

-- The rule's counters are there.
abbrev pub IsLoaded : FalcoRule → StatsManager → Type 0
IsLoaded rule s = (rule.id < length s.m_by_rule_id) × (rule.priority < length s.m_by_priority)

sum-push_back : (v : List ℕ) → sum (v ++ 0 ∷ []) ≡ sum v
sum-push_back [] = refl
sum-push_back (n ∷ v) = ap (λ m. n + m) (sum-push_back v)

sum-push_zeros : (k : ℕ) (v : List ℕ) → sum (push_zeros k v) ≡ sum v
unfolding push_zeros
sum-push_zeros zero v = refl
sum-push_zeros (suc k) v = sum-push_zeros k (v ++ 0 ∷ []) ∙ sum-push_back v

length-push_zeros : (k : ℕ) (v : List ℕ) → length (push_zeros k v) ≡ k + length v
unfolding push_zeros
length-push_zeros zero v = omega arith
length-push_zeros (suc k) v =
    length-push_zeros k (v ++ 0 ∷ []) ∙ omega (arith, length-append v (0 ∷ []))

pub length-extend :
    (n : ℕ) (v : List ℕ) → (n < length (extend n v)) × (length v ≤ length (extend n v))
unfolding extend
length-extend n v =
    let e = length-push_zeros (n + 1 - length v) v in (omega (arith, e), omega (arith, e))

pub length-fetch_add : (i : ℕ) (v : List ℕ) → length (fetch_add i v) ≡ length v
length-fetch_add i [] = refl
length-fetch_add zero (n ∷ v) = refl
length-fetch_add (suc i) (n ∷ v) = ap suc (length-fetch_add i v)

-- No counter passes the total, so none wraps around before it does.
sum-fetch_add :
    (i : ℕ) (v : List ℕ) → i < length v → sum v + 1 < 2 ^ 64 → sum (fetch_add i v) ≡ sum v + 1
sum-fetch_add i [] h b = absurd (omega (arith, h))
sum-fetch_add zero (n ∷ v) h b = omega (arith, b)
sum-fetch_add (suc i) (n ∷ v) h b =
    omega (arith, sum-fetch_add i v (omega (arith, h)) (omega (arith, b)))

not_loaded :
    (rule : FalcoRule) (s : StatsManager)
    → (leb (length s.m_by_rule_id) rule.id || leb (length s.m_by_priority) rule.priority) ≡ true
    → ¬ IsLoaded rule s
not_loaded rule s e (i, p) = ground arith

loaded :
    (rule : FalcoRule) (s : StatsManager)
    → (leb (length s.m_by_rule_id) rule.id || leb (length s.m_by_priority) rule.priority) ≡ false
    → IsLoaded rule s
loaded rule s e = ground arith

-- The calls on the statistics; an event for a rule that was not loaded throws, and changes nothing.
pub data Call : Type 0 where
  clears : Call
  loads : FalcoRule → Call
  counts : FalcoRule → Call

abbrev or_same : Option StatsManager → StatsManager → StatsManager
or_same none s = s
or_same (some t) s = t

unfoldable pub run_call : Call → StatsManager → StatsManager
run_call clears s = clear s
run_call (loads rule) s = on_rule_loaded rule s
run_call (counts rule) s = or_same (on_event rule s) s

-- An event throws exactly if its rule was not loaded.
pub on_event-none_iff :
    (rule : FalcoRule) (s : StatsManager) → (on_event rule s ≡ none) ↔ ¬ IsLoaded rule s
unfolding on_event
on_event-none_iff rule s =
    elim (Bool-cases
      (leb (length s.m_by_rule_id) rule.id || leb (length s.m_by_priority) rule.priority)) [
        | inl e ↦ rw (e, on_event) (λ _ l. not_loaded rule s e l, λ _. refl)
        | inr e ↦ rw (e, on_event) (λ h. cc, λ h. absurd (h (loaded rule s e)))
      ]

unfoldable pub run_calls : List Call → StatsManager → StatsManager
run_calls [] s = s
run_calls (c ∷ cs) s = run_calls cs (run_call c s)

fetch-IsBalanced :
    (rule : FalcoRule) (s : StatsManager)
    → IsLoaded rule s
    → s.m_total + 1 < 2 ^ 64
    → IsBalanced s
    → IsBalanced (record s {
      m_total = add_one s.m_total;
      m_by_rule_id = fetch_add rule.id s.m_by_rule_id;
      m_by_priority = fetch_add rule.priority s.m_by_priority;
    })
fetch-IsBalanced rule s (i, p) b (e, f) = (
  omega (arith, sum-fetch_add rule.id s.m_by_rule_id i (omega (arith, b, e)), e, b),
  omega (arith, sum-fetch_add rule.priority s.m_by_priority p (omega (arith, b, f)), f, b),
)

run_call-IsBalanced :
    (c : Call) (s : StatsManager)
    → s.m_total + 1 < 2 ^ 64
    → IsBalanced s
    → IsBalanced (run_call c s) × ((run_call c s).m_total ≤ s.m_total + 1)
unfolding run_call clear on_rule_loaded on_event extend
run_call-IsBalanced clears s b h = ((refl, refl), omega arith)
run_call-IsBalanced (loads rule) s b (e, f) = (
  (
    sum-push_zeros (rule.id + 1 - length s.m_by_rule_id) s.m_by_rule_id ∙ e,
    sum-push_zeros (rule.priority + 1 - length s.m_by_priority) s.m_by_priority ∙ f,
  ),
  omega arith,
)
run_call-IsBalanced (counts rule) s b h =
    elim (Bool-cases
      (leb (length s.m_by_rule_id) rule.id || leb (length s.m_by_priority) rule.priority)) [
        | inl e ↦ rw (e, on_event) (h, omega arith)
        | inr e ↦ rw (e, on_event) (fetch-IsBalanced rule s (loaded rule s e) b h, omega arith)
      ]

-- Any calls keep the counters by rule and those by priority adding up to the total, as long as the
-- 64-bit total does not wrap around.
pub run_calls-IsBalanced :
    (cs : List Call) (s : StatsManager)
    → s.m_total + length cs < 2 ^ 64
    → IsBalanced s
    → IsBalanced (run_calls cs s)
unfolding run_calls
run_calls-IsBalanced [] s b h = h
run_calls-IsBalanced (c ∷ cs) s b h =
    let (h', le) = run_call-IsBalanced c s (omega (arith, b)) h in
    run_calls-IsBalanced cs (run_call c s) (omega (arith, b, le)) h'

abbrev pub is_clear : Call → Bool
is_clear clears = true
is_clear (loads rule) = false
is_clear (counts rule) = false

run_call-IsLoaded :
    (c : Call) (rule : FalcoRule) (s : StatsManager)
    → is_clear c ≡ false
    → IsLoaded rule s
    → IsLoaded rule (run_call c s)
unfolding run_call on_rule_loaded on_event
run_call-IsLoaded clears rule s n h = cc
run_call-IsLoaded (loads other) rule s n (i, p) = (
  omega (arith, i, (length-extend other.id s.m_by_rule_id).1),
  omega (arith, p, (length-extend other.priority s.m_by_priority).1),
)
run_call-IsLoaded (counts other) rule s n (i, p) =
    elim (Bool-cases
      (leb (length s.m_by_rule_id) other.id || leb (length s.m_by_priority) other.priority)) [
        | inl e ↦ rw (e, on_event) (i, p)
        | inr e ↦ rw (e, on_event, length-fetch_add, length-fetch_add) (i, p)
      ]

calls-IsLoaded :
    (cs : List Call) (rule : FalcoRule) (s : StatsManager)
    → All (λ c. is_clear c ≡ false) cs
    → IsLoaded rule s
    → IsLoaded rule (run_calls cs s)
unfolding run_calls
calls-IsLoaded [] rule s n h = h
calls-IsLoaded (c ∷ cs) rule s n h =
    calls-IsLoaded cs rule (run_call c s) n.1 (run_call-IsLoaded c rule s n.0 h)

-- From its loading on, and until the statistics are cleared, an event of a rule does not throw.
pub run_calls-IsLoaded :
    (cs : List Call) (rule : FalcoRule) (s : StatsManager)
    → All (λ c. is_clear c ≡ false) cs
    → IsLoaded rule (run_calls (loads rule ∷ cs) s)
unfolding run_calls run_call on_rule_loaded
run_calls-IsLoaded cs rule s n =
    calls-IsLoaded cs rule (on_rule_loaded rule s) n
      ((length-extend rule.id s.m_by_rule_id).0, (length-extend rule.priority s.m_by_priority).0)
