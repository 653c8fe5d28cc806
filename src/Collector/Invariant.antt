-- ===== src/Collector/Invariant.antt =====
-- userspace/engine/rule_loader_collector.cpp: the order in which the infos were seen.
use falco.Prelude.{
  ℕ, ◌+◌, ◌^◌, ◌≤◌, ◌<◌, String, ◌<>◌, ◌≡◌, refl, inl, inr, some, ◌++◌, arith, Option-cases, nat_eq,
  string_eq, list_eq,
}
use falco.IndexedVector.{IndexedVector, at, update}
use falco.LoadInfo.{ListInfo, MacroInfo}
use falco.RuleInfo.{RuleInfo}
use falco.Collector.{
  Result, done, threw, list_info, macro_info, rule_info, define_info, Collector, next_index,
  define_list, append_list, define_macro, append_macro,
}
use falco.Collector.Rules.{write_rule, commit_rule}
use falco.Collector.Infos.{IsTracked, define_info-IsTracked, update-IsTracked, weaken-IsTracked}

-- The collector that a call leaves, also where it throws.
abbrev pub after_call : {S : Type 0} → Result S → S
after_call (done s) = s
after_call (threw err s) = s

next_index-small : (n : ℕ) → n + 1 < 2 ^ 32 → next_index n ≡ n + 1
next_index-small n b = omega (arith, b)

module _ {SinspVersion : Type 0} where
  pub record IsOrdered (c : Collector SinspVersion) : Type 0 where
    pub lists : IsTracked c.m_list_infos c.m_cur_index
    pub macros : IsTracked c.m_macro_infos c.m_cur_index
    pub rules : IsTracked c.m_rule_infos c.m_cur_index

  -- What a call does to the invariant and to the counter, as long as that does not wrap around.
  abbrev pub IsStep : Collector SinspVersion → Collector SinspVersion → Type 0
  IsStep c d =
      c.m_cur_index + 1 < 2 ^ 32
      → IsOrdered c
      → IsOrdered d × (c.m_cur_index ≤ d.m_cur_index) × (d.m_cur_index ≤ c.m_cur_index + 1)

  pub none-IsStep : (c : Collector SinspVersion) → IsStep c c
  none-IsStep c b h = (h, omega arith, omega arith)

  advance_lists :
      (c : Collector SinspVersion) (infos : IndexedVector ListInfo)
      → (IsTracked c.m_list_infos c.m_cur_index → IsTracked infos (c.m_cur_index + 1))
      → IsStep c (record c { m_list_infos = infos; m_cur_index = next_index c.m_cur_index })
  advance_lists c infos t b h = rw (next_index-small c.m_cur_index b) (
    record {
      lists = t h.lists;
      macros = weaken-IsTracked c.m_macro_infos c.m_cur_index h.macros;
      rules = weaken-IsTracked c.m_rule_infos c.m_cur_index h.rules;
    },
    omega arith,
    omega arith,
  )

  advance_macros :
      (c : Collector SinspVersion) (infos : IndexedVector MacroInfo)
      → (IsTracked c.m_macro_infos c.m_cur_index → IsTracked infos (c.m_cur_index + 1))
      → IsStep c (record c { m_macro_infos = infos; m_cur_index = next_index c.m_cur_index })
  advance_macros c infos t b h = rw (next_index-small c.m_cur_index b) (
    record {
      lists = weaken-IsTracked c.m_list_infos c.m_cur_index h.lists;
      macros = t h.macros;
      rules = weaken-IsTracked c.m_rule_infos c.m_cur_index h.rules;
    },
    omega arith,
    omega arith,
  )

  pub advance_rules :
      (c : Collector SinspVersion) (infos : IndexedVector RuleInfo)
      → (IsTracked c.m_rule_infos c.m_cur_index → IsTracked infos (c.m_cur_index + 1))
      → IsStep c (record c { m_rule_infos = infos; m_cur_index = next_index c.m_cur_index })
  advance_rules c infos t b h = rw (next_index-small c.m_cur_index b) (
    record {
      lists = weaken-IsTracked c.m_list_infos c.m_cur_index h.lists;
      macros = weaken-IsTracked c.m_macro_infos c.m_cur_index h.macros;
      rules = t h.rules;
    },
    omega arith,
    omega arith,
  )

  pub commit_rule-IsStep :
      (c : Collector SinspVersion) (name : String) (prev rule : RuleInfo)
      → at name c.m_rule_infos ≡ some prev
      → rule.name ≡ prev.name
      → rule.index ≡ prev.index
      → IsStep c (commit_rule name rule c)
  unfolding commit_rule write_rule
  commit_rule-IsStep c name prev rule e n i =
      advance_rules c (update name (record rule { visibility = c.m_cur_index }) c.m_rule_infos)
        (λ t.
          update-IsTracked c.m_rule_infos name prev (record rule { visibility = c.m_cur_index })
            c.m_cur_index (c.m_cur_index + 1) t e n i (omega (arith, t.passed name prev e))
            (omega arith) (omega arith))

  pub write_rule-IsStep :
      (c : Collector SinspVersion) (name : String) (prev rule : RuleInfo)
      → at name c.m_rule_infos ≡ some prev
      → rule.name ≡ prev.name
      → rule.index ≡ prev.index
      → rule.visibility ≡ prev.visibility
      → IsStep c (write_rule name rule c)
  unfolding write_rule
  write_rule-IsStep c name prev rule e n i v b h = (
    record {
      lists = h.lists;
      macros = h.macros;
      rules =
          update-IsTracked c.m_rule_infos name prev rule c.m_cur_index c.m_cur_index h.rules e n i
            (omega (arith, v)) (omega (arith, v, h.rules.passed name prev e)) (omega arith);
    },
    omega arith,
    omega arith,
  )

  pub define_list-IsStep :
      (info : ListInfo) (c : Collector SinspVersion) → IsStep c (after_call (define_list info c))
  unfolding define_list
  define_list-IsStep info c =
      advance_lists c (define_info c.m_list_infos info c.m_cur_index)
        (define_info-IsTracked c.m_list_infos info c.m_cur_index)

  pub append_list-IsStep :
      (info : ListInfo) (c : Collector SinspVersion) → IsStep c (after_call (append_list info c))
  unfolding append_list
  append_list-IsStep info c = elim (Option-cases (at info.name c.m_list_infos)) [
    | inl e ↦ rw (e, append_list) (none-IsStep c)
    | inr (prev, e) ↦
        let new = record prev { items = prev.items ++ info.items; visibility = c.m_cur_index } in
        rw (e, append_list)
          (advance_lists c (update info.name new c.m_list_infos) (λ t.
            update-IsTracked c.m_list_infos info.name prev new c.m_cur_index (c.m_cur_index + 1) t e
              refl refl (omega (arith, t.passed info.name prev e)) (omega arith) (omega arith)))
  ]

  pub define_macro-IsStep :
      (info : MacroInfo) (c : Collector SinspVersion) → IsStep c (after_call (define_macro info c))
  unfolding define_macro
  define_macro-IsStep info c =
      advance_macros c (define_info c.m_macro_infos info c.m_cur_index)
        (define_info-IsTracked c.m_macro_infos info c.m_cur_index)

  pub append_macro-IsStep :
      (info : MacroInfo) (c : Collector SinspVersion) → IsStep c (after_call (append_macro info c))
  unfolding append_macro
  append_macro-IsStep info c = elim (Option-cases (at info.name c.m_macro_infos)) [
    | inl e ↦ rw (e, append_macro) (none-IsStep c)
    | inr (prev, e) ↦
        let new = record prev {
          cond = prev.cond <> (" " <> info.cond);
          visibility = c.m_cur_index;
        } in
        rw (e, append_macro)
          (advance_macros c (update info.name new c.m_macro_infos) (λ t.
            update-IsTracked c.m_macro_infos info.name prev new c.m_cur_index (c.m_cur_index + 1) t
              e refl refl (omega (arith, t.passed info.name prev e)) (omega arith) (omega arith)))
  ]
