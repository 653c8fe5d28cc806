-- ===== src/Collector/Sequence.antt =====
-- userspace/engine/rule_loader_collector.cpp: sequences of the calls that a reader makes.
use falco.Prelude.{
  ◌+◌, ◌^◌, ◌≤◌, ◌<◌, String, ◌≡◌, refl, subst, ◌⊎◌, inl, inr, Bool, true, false, not, Option, some,
  List, [], ◌∷◌, arith, if◌then◌else◌, Bool-cases, Option-cases, nat_eq, string_eq, list_eq, length,
}
use falco.IndexedVector.{at}
use falco.LoadInfo.{
  Configuration, ListInfo, MacroInfo, EngineVersionInfo, PluginVersionInfo, RuleLoadException,
  FalcoSource,
}
use falco.RuleInfo.{RuleInfo, RuleUpdateInfo, has_any_value, value_or}
use falco.Collector.{
  Result, done, threw, list_info, macro_info, rule_info, Collector, SinspVersions, clear,
  define_list, append_list, define_macro, append_macro, define_engine_version,
  define_plugin_version, check_alternatives,
}
use falco.Collector.Exceptions.{validate_exceptions, append_exceptions}
use falco.Collector.Rules.{
  has_other_source, append_fields, replace_fields, Found, found, missing, find_source, define_rule,
  append_found, append_rule, selective_replace, enable,
}
use falco.Collector.Infos.{define_info-IsTracked, empty-IsTracked}
use falco.Collector.Invariant.{
  after_call, IsOrdered, IsStep, none-IsStep, commit_rule-IsStep, write_rule-IsStep, advance_rules,
  define_list-IsStep, append_list-IsStep, define_macro-IsStep, append_macro-IsStep,
}

-- The calls that the reader of a rules file makes.
pub data Operation (SinspVersion : Type 0) : Type 0 where
  defines_engine_version : EngineVersionInfo SinspVersion → Operation SinspVersion
  defines_plugin_version : PluginVersionInfo → Operation SinspVersion
  defines_list : ListInfo → Operation SinspVersion
  appends_list : ListInfo → Operation SinspVersion
  defines_macro : MacroInfo → Operation SinspVersion
  appends_macro : MacroInfo → Operation SinspVersion
  defines_rule : RuleInfo → Operation SinspVersion
  appends_rule : RuleUpdateInfo → Operation SinspVersion
  replaces_rule : RuleUpdateInfo → Operation SinspVersion
  enables_rule : RuleInfo → Operation SinspVersion

-- A call beside the configuration, which it leaves.
abbrev pub beside : {S C : Type 0} → C → Result S → Result (S × C)
beside cfg (done s) = done (s, cfg)
beside cfg (threw err s) = threw err (s, cfg)

pub Result-cases :
    {S : Type 0} (r : Result S)
    → ((s : S) × (r ≡ done s)) ⊎ ((e : RuleLoadException) × (s : S) × (r ≡ threw e s))
Result-cases (done s) = inl (s, refl)
Result-cases (threw e s) = inr (e, s, refl)

pub Found-cases : (f : Found) → (f ≡ missing) ⊎ ((source : Option FalcoSource) × (f ≡ found source))
Found-cases missing = inl refl
Found-cases (found source) = inr (source, refl)

module _ {SinspVersion : Type 0} (sinsp : SinspVersions SinspVersion)
    (supported_operators : List String) where
  unfoldable pub apply :
      Operation SinspVersion
      → Collector SinspVersion × Configuration
      → Result (Collector SinspVersion × Configuration)
  apply (defines_engine_version info) (c, cfg) = beside cfg (define_engine_version sinsp info c)
  apply (defines_plugin_version info) (c, cfg) = beside cfg (define_plugin_version sinsp info c)
  apply (defines_list info) (c, cfg) = beside cfg (define_list info c)
  apply (appends_list info) (c, cfg) = beside cfg (append_list info c)
  apply (defines_macro info) (c, cfg) = beside cfg (define_macro info c)
  apply (appends_macro info) (c, cfg) = beside cfg (append_macro info c)
  apply (defines_rule info) (c, cfg) = define_rule supported_operators info (c, cfg)
  apply (appends_rule info) (c, cfg) = beside cfg (append_rule supported_operators cfg info c)
  apply (replaces_rule info) (c, cfg) = beside cfg (selective_replace cfg info c)
  apply (enables_rule info) (c, cfg) = beside cfg (enable info c)

  -- A reader goes on until a call throws.
  unfoldable pub apply_all :
      List (Operation SinspVersion)
      → Collector SinspVersion × Configuration
      → Result (Collector SinspVersion × Configuration)
  apply_all [] s = done s
  apply_all (op ∷ ops) s = elim (apply op s) [
    | threw err s' ↦ threw err s'
    | done s' ↦ apply_all ops s'
  ]

  if-IsStep :
      (c : Collector SinspVersion) (b : Bool) (r s : Result (Collector SinspVersion))
      → IsStep c (after_call r)
      → IsStep c (after_call s)
      → IsStep c (after_call (if b then r else s))
  if-IsStep c true r s h k = h
  if-IsStep c false r s h k = k

  define_engine_version-IsStep :
      (info : EngineVersionInfo SinspVersion) (c : Collector SinspVersion)
      → IsStep c (after_call (define_engine_version sinsp info c))
  unfolding define_engine_version
  define_engine_version-IsStep info c =
      if-IsStep c (not (sinsp.compatible_with sinsp.engine_version info.version)) _ _
        (none-IsStep c)
        (if-IsStep c (sinsp.is_before c.m_required_engine_version.version info.version) _ _
          (λ b h. (
            record { lists = h.lists; macros = h.macros; rules = h.rules },
            omega arith,
            omega arith,
          ))
          (none-IsStep c))

  define_plugin_version-IsStep :
      (info : PluginVersionInfo) (c : Collector SinspVersion)
      → IsStep c (after_call (define_plugin_version sinsp info c))
  unfolding define_plugin_version
  define_plugin_version-IsStep info c b h =
      elim (Option-cases (check_alternatives sinsp info.ctx [] info.alternatives)) [
        | inl e ↦
            rw (e, define_plugin_version)
              (
                record { lists = h.lists; macros = h.macros; rules = h.rules },
                omega arith,
                omega arith,
              )
        | inr (err, e) ↦ rw (e, define_plugin_version) (none-IsStep c b h)
      ]

  append_found-IsStep :
      (info : RuleUpdateInfo) (prev : RuleInfo) (source : Option FalcoSource)
      (c : Collector SinspVersion)
      → at info.name c.m_rule_infos ≡ some prev
      → IsStep c (after_call (append_found supported_operators info prev source c))
  unfolding append_found append_fields
  append_found-IsStep info prev source c e =
      elim (Result-cases (
        append_exceptions supported_operators source (value_or info.exceptions [])
          prev.exceptions)) [
            | inl (exs, q) ↦
                rw (q, append_found, append_fields)
                  (commit_rule-IsStep c info.name prev _ e refl refl)
            | inr (err, exs, q) ↦
                rw (q, append_found, append_fields)
                  (write_rule-IsStep c info.name prev _ e refl refl refl)
          ]

  append_rule-IsStep :
      (cfg : Configuration) (info : RuleUpdateInfo) (c : Collector SinspVersion)
      → IsStep c (after_call (append_rule supported_operators cfg info c))
  unfolding append_rule
  append_rule-IsStep cfg info c = elim (Option-cases (at info.name c.m_rule_infos)) [
    | inl e ↦ rw (e, append_rule) (none-IsStep c)
    | inr (prev, e) ↦
        rw (e, append_rule)
          (if-IsStep c (not (has_any_value info)) _ _ (none-IsStep c)
            (elim (Found-cases (find_source cfg prev)) [
              | inl q ↦ rw q (none-IsStep c)
              | inr (source, q) ↦ rw q (append_found-IsStep info prev source c e)
            ]))
  ]

  selective_replace-IsStep :
      (cfg : Configuration) (info : RuleUpdateInfo) (c : Collector SinspVersion)
      → IsStep c (after_call (selective_replace cfg info c))
  unfolding selective_replace replace_fields
  selective_replace-IsStep cfg info c = elim (Option-cases (at info.name c.m_rule_infos)) [
    | inl e ↦ rw (e, selective_replace) (none-IsStep c)
    | inr (prev, e) ↦
        rw (e, selective_replace)
          (if-IsStep c (not (has_any_value info)) _ _ (none-IsStep c)
            (elim (Found-cases (find_source cfg prev)) [
              | inl q ↦ rw q (none-IsStep c)
              | inr (source, q) ↦
                  rw q (commit_rule-IsStep c info.name prev (replace_fields info prev) e refl refl)
            ]))
  ]

  enable-IsStep :
      (info : RuleInfo) (c : Collector SinspVersion) → IsStep c (after_call (enable info c))
  unfolding enable
  enable-IsStep info c = elim (Option-cases (at info.name c.m_rule_infos)) [
    | inl e ↦ rw (e, enable) (none-IsStep c)
    | inr (prev, e) ↦ rw (e, enable) (write_rule-IsStep c info.name prev _ e refl refl refl)
  ]

  define_rule-IsStep :
      (info : RuleInfo) (c : Collector SinspVersion) (cfg : Configuration)
      → IsStep c (after_call (define_rule supported_operators info (c, cfg))).0
  unfolding define_rule
  define_rule-IsStep info c cfg =
      elim (Bool-cases (has_other_source (at info.name c.m_rule_infos) info)) [
        | inl e ↦ rw (e, define_rule) (none-IsStep c)
        | inr e ↦
            elim (Result-cases (
              validate_exceptions supported_operators (at info.source cfg.sources)
                info.exceptions)) [
                  | inl (exs, q) ↦
                      rw (e, q, define_rule)
                        (advance_rules c _ (define_info-IsTracked c.m_rule_infos _ c.m_cur_index))
                  | inr (err, exs, q) ↦ rw (e, q, define_rule) (none-IsStep c)
                ]
      ]

  beside-IsStep :
      (c : Collector SinspVersion) (cfg : Configuration) (r : Result (Collector SinspVersion))
      → IsStep c (after_call r)
      → IsStep c (after_call (beside cfg r)).0
  beside-IsStep c cfg (done d) h = h
  beside-IsStep c cfg (threw err d) h = h

  -- Every call keeps the order of the infos, also where it throws.
  pub apply-IsStep :
      (op : Operation SinspVersion) (c : Collector SinspVersion) (cfg : Configuration)
      → IsStep c (after_call (apply op (c, cfg))).0
  unfolding apply
  apply-IsStep (defines_engine_version info) c cfg =
      beside-IsStep c cfg (define_engine_version sinsp info c) (define_engine_version-IsStep info c)
  apply-IsStep (defines_plugin_version info) c cfg =
      beside-IsStep c cfg (define_plugin_version sinsp info c) (define_plugin_version-IsStep info c)
  apply-IsStep (defines_list info) c cfg =
      beside-IsStep c cfg (define_list info c) (define_list-IsStep info c)
  apply-IsStep (appends_list info) c cfg =
      beside-IsStep c cfg (append_list info c) (append_list-IsStep info c)
  apply-IsStep (defines_macro info) c cfg =
      beside-IsStep c cfg (define_macro info c) (define_macro-IsStep info c)
  apply-IsStep (appends_macro info) c cfg =
      beside-IsStep c cfg (append_macro info c) (append_macro-IsStep info c)
  apply-IsStep (defines_rule info) c cfg = define_rule-IsStep info c cfg
  apply-IsStep (appends_rule info) c cfg =
      beside-IsStep c cfg (append_rule supported_operators cfg info c)
        (append_rule-IsStep cfg info c)
  apply-IsStep (replaces_rule info) c cfg =
      beside-IsStep c cfg (selective_replace cfg info c) (selective_replace-IsStep cfg info c)
  apply-IsStep (enables_rule info) c cfg =
      beside-IsStep c cfg (enable info c) (enable-IsStep info c)

  -- As many calls as the counter has numbers left keep the order.
  pub apply_all-IsOrdered :
      (ops : List (Operation SinspVersion)) (c : Collector SinspVersion) (cfg : Configuration)
      → c.m_cur_index + length ops < 2 ^ 32
      → IsOrdered c
      → IsOrdered (after_call (apply_all ops (c, cfg))).0
  unfolding apply_all
  apply_all-IsOrdered [] c cfg b h = h
  apply_all-IsOrdered (op ∷ ops) c cfg b h =
      let (h', _, le) = apply-IsStep op c cfg (omega (arith, b)) h in
      elim (Result-cases (apply op (c, cfg))) [
        | inl ((d, cfg'), q) ↦
            let k : IsOrdered d × (d.m_cur_index ≤ c.m_cur_index + 1) =
              subst
                (λ (r : Result (Collector SinspVersion × Configuration)).
                  IsOrdered (after_call r).0 × ((after_call r).0.m_cur_index ≤ c.m_cur_index + 1))
                q (h', le) in
            rw (q, apply_all) (apply_all-IsOrdered ops d cfg' (omega (arith, b, k.1)) k.0)
        | inr (err, s, q) ↦
            rw (q, apply_all)
              (subst
                (λ (r : Result (Collector SinspVersion × Configuration)).
                  IsOrdered (after_call r).0)
                q h')
      ]

module _ {SinspVersion : Type 0} where
  -- A collector that was cleared.
  pub clear-IsOrdered : (c : Collector SinspVersion) → IsOrdered (clear c)
  unfolding clear
  clear-IsOrdered c = record {
    lists = empty-IsTracked;
    macros = empty-IsTracked;
    rules = empty-IsTracked;
  }
