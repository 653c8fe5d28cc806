-- ===== src/RuleInfo.antt =====
-- userspace/engine/rule_loader.h: the infos about a rule, its exceptions and its updates.
use falco.Prelude.{ℕ, String, Bool, ◌&&◌, ◌||◌, not, Option, none, some, List}
use falco.ByteString.{codes}
use falco.Ruleset.{is_empty}
use falco.Rule.{Priority}
use falco.LoadInfo.{Context, Entry, is_list, item, items}

abbrev pub is_empty_text : String → Bool
is_empty_text s = is_empty (codes s)

-- `entry::is_valid`
abbrev pub is_valid : Entry → Bool
is_valid e =
    is_list e && not (is_empty (items e)) || not (is_list e) && not (is_empty_text (item e))

pub record RuleExceptionInfo : Type 0 where
  pub ctx : Context
  pub name : String
  pub fields : Entry
  pub comps : Entry
  pub values : List Entry

pub record RuleInfo : Type 0 where
  pub ctx : Context
  pub cond_ctx : Context
  pub output_ctx : Context
  pub index : ℕ
  pub visibility : ℕ
  pub unknown_source : Bool
  pub name : String
  pub cond : String
  pub source : String
  pub desc : String
  pub output : String
  pub tags : List String
  pub exceptions : List RuleExceptionInfo
  pub priority : Priority
  pub enabled : Bool
  pub warn_evttypes : Bool
  pub skip_if_unknown_filter : Bool

pub record RuleUpdateInfo : Type 0 where
  pub ctx : Context
  pub cond_ctx : Context
  pub name : String
  pub cond : Option String
  pub output : Option String
  pub desc : Option String
  pub tags : Option (List String)
  pub exceptions : Option (List RuleExceptionInfo)
  pub priority : Option Priority
  pub enabled : Option Bool
  pub warn_evttypes : Option Bool
  pub skip_if_unknown_filter : Option Bool

abbrev pub has_value {ℓ} : {A : Type ℓ} → Option A → Bool
has_value none = Bool.false
has_value (some a) = Bool.true

abbrev pub value_or {ℓ} : {A : Type ℓ} → Option A → A → A
value_or none a = a
value_or (some b) a = b

unfoldable pub has_any_value : RuleUpdateInfo → Bool
has_any_value info =
    has_value info.cond
    || has_value info.output
    || has_value info.desc
    || has_value info.tags
    || has_value info.exceptions
    || has_value info.priority
    || has_value info.enabled
    || has_value info.warn_evttypes
    || has_value info.skip_if_unknown_filter
