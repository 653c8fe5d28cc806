-- ===== src/Collector/Updates.antt =====
-- userspace/engine/rule_loader_collector.cpp: what the calls do to the rules that are found by name.
use falco.Prelude.{
  String, ◌≡◌, refl, sym, ap, ◌∙◌, subst, ◌≢◌, ◌↔◌, inl, inr, true, false, Option, none, some, List,
  [], if◌then◌else◌, Bool-cases, Option-cases, ◌==◌, ==_ne, nat_eq, string_eq, list_eq,
}
use mathlib.Core.Bool.{true≢false}
use mathlib.Core.Option.{none-ne-some, some_inj}
use falco.IndexedVector.{at}
use falco.IndexedVector.Lookup.{at-update}
use falco.LoadInfo.{Configuration, RuleLoadException, FalcoSource}
use falco.RuleInfo.{RuleInfo, RuleUpdateInfo, has_any_value, value_or}
use falco.Collector.{Result, done, threw, list_info, macro_info, rule_info, Collector}
use falco.Collector.Exceptions.{append_exceptions}
use falco.Collector.Rules.{
  append_fields, replace_fields, found, missing, find_source, write_rule, commit_rule, append_found,
  append_rule, selective_replace,
}
use falco.Collector.Invariant.{after_call, IsOrdered}
use falco.Collector.Replaced.{
  IsReplaced, replace_fields-IsReplaced, IsReplacement, commit_rule-IsReplacement,
}
use falco.Collector.Sequence.{Result-cases, Found-cases}

missing-ne-found : (source : Option FalcoSource) → ¬ (missing ≡ found source)
missing-ne-found source h = cc

find_source-missing :
    (cfg : Configuration) (prev : RuleInfo)
    → find_source cfg prev ≡ missing
    → (prev.unknown_source ≡ false) × (at prev.source cfg.sources ≡ none)
unfolding find_source
find_source-missing cfg prev = elim (Bool-cases prev.unknown_source) [
  | inl u ↦ rw (u, find_source) (λ h. cc)
  | inr u ↦ elim (Option-cases (at prev.source cfg.sources)) [
    | inl e ↦ rw (u, e, find_source) (λ h. (refl, refl))
    | inr (source, e) ↦ rw (u, e, find_source) (λ h. cc)
  ]
]

missing-find_source :
    (cfg : Configuration) (prev : RuleInfo)
    → prev.unknown_source ≡ false
    → at prev.source cfg.sources ≡ none
    → find_source cfg prev ≡ missing
unfolding find_source
missing-find_source cfg prev u e = rw (u, e, find_source) refl

module _ {SinspVersion : Type 0} where
  at-write_rule :
      (c : Collector SinspVersion) (name j : String) (prev rule : RuleInfo)
      → IsOrdered c
      → at name c.m_rule_infos ≡ some prev
      → at j (write_rule name rule c).m_rule_infos
        ≡ (if j == name then some rule else at j c.m_rule_infos)
  unfolding write_rule
  at-write_rule c name j prev rule h e = at-update rule name j c.m_rule_infos h.rules.valid e

  -- The conditions under which an update is refused.
  pub data IsRefused (cfg : Configuration) (info : RuleUpdateInfo) (c : Collector SinspVersion)
      : Type 0 where
    no_rule : at info.name c.m_rule_infos ≡ none → IsRefused cfg info c
    no_value : has_any_value info ≡ false → IsRefused cfg info c
    no_source :
        {prev : RuleInfo}
        → at info.name c.m_rule_infos ≡ some prev
        → prev.unknown_source ≡ false
        → at prev.source cfg.sources ≡ none
        → IsRefused cfg info c

  -- What a call throws, with the collector as it was.
  abbrev pub ThrowsAt : Result (Collector SinspVersion) → Collector SinspVersion → Type 0
  ThrowsAt r c = (err : RuleLoadException) × (r ≡ threw err c)

  done-ne-ThrowsAt : (c d : Collector SinspVersion) → ¬ ThrowsAt (done d) c
  done-ne-ThrowsAt c d (err, h) = cc

  pub IsRefused-ne-found :
      (cfg : Configuration) (info : RuleUpdateInfo) (c : Collector SinspVersion) (prev : RuleInfo)
      (source : Option FalcoSource)
      → at info.name c.m_rule_infos ≡ some prev
      → has_any_value info ≡ true
      → find_source cfg prev ≡ found source
      → ¬ IsRefused cfg info c
  IsRefused-ne-found cfg info c prev source e v q (no_rule n) = none-ne-some prev (sym n ∙ e)
  IsRefused-ne-found cfg info c prev source e v q (no_value n) = true≢false (sym v ∙ n)
  IsRefused-ne-found cfg info c prev source e v q (no_source {prev = other} f u n) =
      let same : other ≡ prev = some_inj.0 (sym f ∙ e) in
      let lost : find_source cfg prev ≡ missing =
        subst (λ p. find_source cfg p ≡ missing) same (missing-find_source cfg other u n) in
      missing-ne-found source (sym lost ∙ q)

  -- A replacement throws, and leaves the collector as it is, exactly if it is refused.
  pub selective_replace-throws_iff :
      (cfg : Configuration) (info : RuleUpdateInfo) (c : Collector SinspVersion)
      → ThrowsAt (selective_replace cfg info c) c ↔ IsRefused cfg info c
  unfolding selective_replace
  selective_replace-throws_iff cfg info c = elim (Option-cases (at info.name c.m_rule_infos)) [
    | inl e ↦ rw (e, selective_replace) (λ h. no_rule e, λ h. (_, refl))
    | inr (prev, e) ↦ elim (Bool-cases (has_any_value info)) [
      | inr v ↦ rw (e, v, selective_replace) (λ h. no_value v, λ h. (_, refl))
      | inl v ↦ elim (Found-cases (find_source cfg prev)) [
        | inl q ↦
            let (u, n) = find_source-missing cfg prev q in
            rw (e, v, q, selective_replace) (λ h. no_source e u n, λ h. (_, refl))
        | inr (source, q) ↦
            rw (e, v, q, selective_replace)
              (
                λ h. absurd (done-ne-ThrowsAt c _ h),
                λ h. absurd (IsRefused-ne-found cfg info c prev source e v q h),
              )
      ]
    ]
  ]

  -- What a replacement that is not refused does.
  abbrev pub Replaces : Configuration → RuleUpdateInfo → Collector SinspVersion → Type 0
  Replaces cfg info c =
      (prev : RuleInfo) × (rule : RuleInfo) × (d : Collector SinspVersion) × (selective_replace cfg
          info c
        ≡ done d)
      × (at info.name c.m_rule_infos ≡ some prev)
      × IsReplaced info prev c.m_cur_index rule
      × IsReplacement info.name rule c d

  done-IsReplacement :
      (cfg : Configuration) (info : RuleUpdateInfo) (c : Collector SinspVersion) (prev : RuleInfo)
      (source : Option FalcoSource)
      → IsOrdered c
      → at info.name c.m_rule_infos ≡ some prev
      → has_any_value info ≡ true
      → find_source cfg prev ≡ found source
      → Replaces cfg info c
  unfolding selective_replace
  done-IsReplacement cfg info c prev source h e v s =
      let rule = record (replace_fields info prev) { visibility = c.m_cur_index } in
      (
        prev,
        rule,
        commit_rule info.name (replace_fields info prev) c,
        rw (e, v, s, selective_replace) refl,
        e,
        replace_fields-IsReplaced info prev c.m_cur_index,
        commit_rule-IsReplacement c info.name prev (replace_fields info prev) h e,
      )

  -- A replacement in a collector that keeps the order of its infos, where none of the conditions of a
  -- refusal holds, gives the rule of the name the given values in the place of its own, the counter as
  -- its visibility, and nothing else; it counts up, and leaves all other infos and versions.
  pub at-selective_replace :
      (cfg : Configuration) (info : RuleUpdateInfo) (c : Collector SinspVersion)
      → IsOrdered c
      → ¬ IsRefused cfg info c
      → Replaces cfg info c
  at-selective_replace cfg info c h n = elim (Option-cases (at info.name c.m_rule_infos)) [
    | inl e ↦ absurd (n (no_rule e))
    | inr (prev, e) ↦ elim (Bool-cases (has_any_value info)) [
      | inr v ↦ absurd (n (no_value v))
      | inl v ↦ elim (Found-cases (find_source cfg prev)) [
        | inl q ↦ let (u, m) = find_source-missing cfg prev q in absurd (n (no_source e u m))
        | inr (source, q) ↦ done-IsReplacement cfg info c prev source h e v q
      ]
    ]
  ]

  -- The counter and every rule but that of the name are as they were.
  abbrev pub IsKept : String → Collector SinspVersion → Collector SinspVersion → Type 0
  IsKept name c d =
      (d.m_cur_index ≡ c.m_cur_index)
      × ((j : String) → j ≢ name → at j d.m_rule_infos ≡ at j c.m_rule_infos)

  IsKept-same :
      (name : String) (c d : Collector SinspVersion) (e e' : RuleLoadException)
      → threw e c ≡ threw e' d
      → IsKept name c d
  IsKept-same name c d e e' h = subst (IsKept name c) (ap after_call h) (refl, λ j n. refl)

  write_rule-IsKept :
      (name : String) (c : Collector SinspVersion) (prev rule : RuleInfo)
      → IsOrdered c
      → at name c.m_rule_infos ≡ some prev
      → IsKept name c (write_rule name rule c)
  unfolding write_rule
  write_rule-IsKept name c prev rule h e =
      (refl, λ j n. at-write_rule c name j prev rule h e ∙ rw (==_ne j name n) refl)

  done-ne-threw : (c d : Collector SinspVersion) (e : RuleLoadException) → ¬ (done c ≡ threw e d)
  done-ne-threw c d e h = cc

  -- An append that throws, also in the middle of its exceptions, leaves the counter and every rule
  -- but that of its name as they are.
  pub append_rule-threw :
      (ops : List String) (cfg : Configuration) (info : RuleUpdateInfo)
      (c d : Collector SinspVersion) (err : RuleLoadException)
      → IsOrdered c
      → append_rule ops cfg info c ≡ threw err d
      → IsKept info.name c d
  unfolding append_rule append_found
  append_rule-threw ops cfg info c d err h = elim (Option-cases (at info.name c.m_rule_infos)) [
    | inl e ↦ rw (e, append_rule) (IsKept-same info.name c d _ err)
    | inr (prev, e) ↦ elim (Bool-cases (has_any_value info)) [
      | inr v ↦ rw (e, v, append_rule) (IsKept-same info.name c d _ err)
      | inl v ↦ elim (Found-cases (find_source cfg prev)) [
        | inl q ↦ rw (e, v, q, append_rule) (IsKept-same info.name c d _ err)
        | inr (source, q) ↦
            elim (Result-cases (
              append_exceptions ops source (value_or info.exceptions [])
                (append_fields info prev).exceptions)) [
                  | inl (exs, r) ↦
                      rw (e, v, q, append_rule)
                        (rw (r, append_found) (λ t. absurd (done-ne-threw _ d err t)))
                  | inr (err', exs, r) ↦
                      rw (e, v, q, append_rule)
                        (rw (r, append_found)
                          (λ t.
                            subst (IsKept info.name c) (ap after_call t)
                              (write_rule-IsKept info.name c prev _ h e)))
                ]
      ]
    ]
  ]
