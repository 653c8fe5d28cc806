-- ===== src/Collector/Replaced.antt =====
-- userspace/engine/rule_loader_collector.cpp: a rule that a replacement writes, and its collector.
use falco.Prelude.{
  ℕ, ◌+◌, ◌%◌, ◌^◌, String, ◌≡◌, refl, Option, none, some, if◌then◌else◌, ◌==◌, nat_eq, string_eq,
  list_eq,
}
use falco.IndexedVector.{at}
use falco.IndexedVector.Lookup.{at-update}
use falco.RuleInfo.{RuleInfo, RuleUpdateInfo, value_or}
use falco.Collector.{Collector}
use falco.Collector.Rules.{replace_fields, write_rule, commit_rule}
use falco.Collector.Invariant.{IsOrdered}

-- A given value, or else the one that was there.
abbrev pub IsChosen {ℓ} : {A : Type ℓ} → Option A → A → A → Type ℓ
IsChosen none old new = new ≡ old
IsChosen (some v) old new = new ≡ v

IsChosen-value_or {ℓ} : {A : Type ℓ} (o : Option A) (old : A) → IsChosen o old (value_or o old)
IsChosen-value_or none old = refl
IsChosen-value_or (some v) old = refl

-- The members of a rule after an update that gives some of them.
pub record IsReplaced (info : RuleUpdateInfo) (prev : RuleInfo) (visibility : ℕ) (rule : RuleInfo)
    : Type 0 where
  pub cond : IsChosen info.cond prev.cond rule.cond
  pub output : IsChosen info.output prev.output rule.output
  pub desc : IsChosen info.desc prev.desc rule.desc
  pub tags : IsChosen info.tags prev.tags rule.tags
  pub exceptions : IsChosen info.exceptions prev.exceptions rule.exceptions
  pub priority : IsChosen info.priority prev.priority rule.priority
  pub enabled : IsChosen info.enabled prev.enabled rule.enabled
  pub warn_evttypes : IsChosen info.warn_evttypes prev.warn_evttypes rule.warn_evttypes
  pub skip_if_unknown_filter :
      IsChosen info.skip_if_unknown_filter prev.skip_if_unknown_filter rule.skip_if_unknown_filter
  pub visible : rule.visibility ≡ visibility
  pub name : rule.name ≡ prev.name
  pub source : rule.source ≡ prev.source
  pub unknown_source : rule.unknown_source ≡ prev.unknown_source
  pub index : rule.index ≡ prev.index
  pub ctx : rule.ctx ≡ prev.ctx
  pub cond_ctx : rule.cond_ctx ≡ prev.cond_ctx
  pub output_ctx : rule.output_ctx ≡ prev.output_ctx

pub replace_fields-IsReplaced :
    (info : RuleUpdateInfo) (prev : RuleInfo) (visibility : ℕ)
    → IsReplaced info prev visibility
        (record (replace_fields info prev) { visibility = visibility })
unfolding replace_fields
replace_fields-IsReplaced info prev visibility = record {
  cond = IsChosen-value_or info.cond prev.cond;
  output = IsChosen-value_or info.output prev.output;
  desc = IsChosen-value_or info.desc prev.desc;
  tags = IsChosen-value_or info.tags prev.tags;
  exceptions = IsChosen-value_or info.exceptions prev.exceptions;
  priority = IsChosen-value_or info.priority prev.priority;
  enabled = IsChosen-value_or info.enabled prev.enabled;
  warn_evttypes = IsChosen-value_or info.warn_evttypes prev.warn_evttypes;
  skip_if_unknown_filter =
      IsChosen-value_or info.skip_if_unknown_filter prev.skip_if_unknown_filter;
  visible = refl;
  name = refl;
  source = refl;
  unknown_source = refl;
  index = refl;
  ctx = refl;
  cond_ctx = refl;
  output_ctx = refl;
}

module _ {SinspVersion : Type 0} where
  -- The collector after a rule of it was replaced by another.
  pub record IsReplacement (name : String) (rule : RuleInfo) (c d : Collector SinspVersion)
      : Type 0 where
    pub rules :
        (j : String) → at j d.m_rule_infos ≡ (if j == name then some rule else at j c.m_rule_infos)
    pub counter : d.m_cur_index ≡ (c.m_cur_index + 1) % 2 ^ 32
    pub macros : d.m_macro_infos ≡ c.m_macro_infos
    pub lists : d.m_list_infos ≡ c.m_list_infos
    pub plugins : d.m_required_plugin_versions ≡ c.m_required_plugin_versions
    pub engine : d.m_required_engine_version ≡ c.m_required_engine_version

  pub commit_rule-IsReplacement :
      (c : Collector SinspVersion) (name : String) (prev rule : RuleInfo)
      → IsOrdered c
      → at name c.m_rule_infos ≡ some prev
      → IsReplacement name (record rule { visibility = c.m_cur_index }) c (commit_rule name rule c)
  unfolding commit_rule write_rule
  commit_rule-IsReplacement c name prev rule h e = record {
    rules = λ j.
        at-update (record rule { visibility = c.m_cur_index }) name j c.m_rule_infos h.rules.valid
          e;
    counter = refl;
    macros = refl;
    lists = refl;
    plugins = refl;
    engine = refl;
  }
