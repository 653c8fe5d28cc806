-- ===== src/Collector.antt =====
-- userspace/engine/rule_loader_collector.cpp: the collector of what the rules files define, over the
-- versions of libsinsp.
pub mod Exceptions
pub mod Rules
pub mod Infos
pub mod Invariant
pub mod Sequence
pub mod Validation
pub mod Replaced
pub mod Completed
pub mod Updates
pub mod Appending
use falco.Prelude.{
  ℕ, ◌+◌, ◌%◌, ◌^◌, String, ◌<>◌, ◌≡◌, refl, Bool, true, false, not, Option, none, some, List, [],
  ◌∷◌, ◌++◌, if◌then◌else◌, contains, string_eq,
}
use falco.IndexedVector.{IndexedVector, empty_vector, at, insert, update}
use falco.LoadInfo.{
  Context, RuleLoadException, ErrorCode, load_err_validate, ListInfo, MacroInfo, EngineVersionInfo,
  Requirement, PluginVersionInfo,
}
use falco.RuleInfo.{RuleInfo}

-- What an operation does: the state, and the exception where one is thrown.
pub data Result (S : Type 0) : Type 0 where
  done : S → Result S
  threw : RuleLoadException → S → Result S

-- The `THROW` of a failed validation.
abbrev pub throw : {S : Type 0} → String → Context → S → Result S
throw msg ctx s = threw (record { ec = load_err_validate; msg = msg; ctx = ctx }) s

-- The members that `define_info` reads and writes in every kind of info.
pub record Info (T : Type 0) : Type 0 where
  pub name : T → String
  pub index : T → ℕ
  pub visibility : T → ℕ
  pub set_index : ℕ → ℕ → T → T
  pub name_set : (i v : ℕ) (t : T) → name (set_index i v t) ≡ name t
  pub index_set : (i v : ℕ) (t : T) → index (set_index i v t) ≡ i
  pub visibility_set : (i v : ℕ) (t : T) → visibility (set_index i v t) ≡ v

instance abbrev pub list_info : Info ListInfo
list_info = record {
  name = λ t. t.name;
  index = λ t. t.index;
  visibility = λ t. t.visibility;
  set_index = λ i v t. record t { index = i; visibility = v };
  name_set = λ i v t. refl;
  index_set = λ i v t. refl;
  visibility_set = λ i v t. refl;
}

instance abbrev pub macro_info : Info MacroInfo
macro_info = record {
  name = λ t. t.name;
  index = λ t. t.index;
  visibility = λ t. t.visibility;
  set_index = λ i v t. record t { index = i; visibility = v };
  name_set = λ i v t. refl;
  index_set = λ i v t. refl;
  visibility_set = λ i v t. refl;
}

instance abbrev pub rule_info : Info RuleInfo
rule_info = record {
  name = λ t. t.name;
  index = λ t. t.index;
  visibility = λ t. t.visibility;
  set_index = λ i v t. record t { index = i; visibility = v };
  name_set = λ i v t. refl;
  index_set = λ i v t. refl;
  visibility_set = λ i v t. refl;
}

module _ {T : Type 0} ⦃info : Info T⦄ where
  unfoldable pub define_info : IndexedVector T → T → ℕ → IndexedVector T
  define_info infos t id = elim (at (info.name t) infos) [
    | some prev ↦ update (info.name t) (info.set_index (info.index prev) id t) infos
    | none ↦ (insert (info.set_index id id t) (info.name t) infos).0
  ]

pub record Collector (SinspVersion : Type 0) : Type 0 where
  pub m_cur_index : ℕ
  pub m_rule_infos : IndexedVector RuleInfo
  pub m_macro_infos : IndexedVector MacroInfo
  pub m_list_infos : IndexedVector ListInfo
  pub m_required_plugin_versions : List (List Requirement)
  pub m_required_engine_version : EngineVersionInfo SinspVersion

-- `m_cur_index++` of a `uint32_t`
abbrev pub next_index : ℕ → ℕ
next_index n = (n + 1) % 2 ^ 32

-- `sinsp_version`
pub record SinspVersions (SinspVersion : Type 0) : Type 0 where
  pub sinsp_version : String → SinspVersion
  pub is_valid_version : SinspVersion → Bool
  pub compatible_with : SinspVersion → SinspVersion → Bool
  pub is_before : SinspVersion → SinspVersion → Bool
  pub as_string : SinspVersion → String
  -- `falco_engine::engine_version()`, which the build sets
  pub engine_version : SinspVersion

module _ {SinspVersion : Type 0} where
  unfoldable pub clear : Collector SinspVersion → Collector SinspVersion
  clear c = record c {
    m_cur_index = 0;
    m_rule_infos = empty_vector;
    m_list_infos = empty_vector;
    m_macro_infos = empty_vector;
    m_required_plugin_versions = [];
  }

  unfoldable pub define_list : ListInfo → Collector SinspVersion → Result (Collector SinspVersion)
  define_list info c = done (record c {
    m_list_infos = define_info c.m_list_infos info c.m_cur_index;
    m_cur_index = next_index c.m_cur_index;
  })

  unfoldable pub append_list : ListInfo → Collector SinspVersion → Result (Collector SinspVersion)
  append_list info c = elim (at info.name c.m_list_infos) [
    | none ↦
        throw
          "List uses 'append' or 'override.items: append' but no list by that name already exists"
          info.ctx c
    | some prev ↦ done (record c {
      m_list_infos =
          update info.name
            (record prev { items = prev.items ++ info.items; visibility = c.m_cur_index })
            c.m_list_infos;
      m_cur_index = next_index c.m_cur_index;
    })
  ]

  unfoldable pub define_macro : MacroInfo → Collector SinspVersion → Result (Collector SinspVersion)
  define_macro info c = done (record c {
    m_macro_infos = define_info c.m_macro_infos info c.m_cur_index;
    m_cur_index = next_index c.m_cur_index;
  })

  unfoldable pub append_macro : MacroInfo → Collector SinspVersion → Result (Collector SinspVersion)
  append_macro info c = elim (at info.name c.m_macro_infos) [
    | none ↦
        throw
          "Macro uses 'append' or 'override.condition: append' but no macro by that name already exists"
          info.ctx c
    | some prev ↦ done (record c {
      m_macro_infos =
          update info.name
            (record prev { cond = prev.cond <> (" " <> info.cond); visibility = c.m_cur_index })
            c.m_macro_infos;
      m_cur_index = next_index c.m_cur_index;
    })
  ]

  module _ (sinsp : SinspVersions SinspVersion) where
    unfoldable pub define_engine_version :
        EngineVersionInfo SinspVersion → Collector SinspVersion → Result (Collector SinspVersion)
    define_engine_version info c =
        if not (sinsp.compatible_with sinsp.engine_version info.version)
        then throw
            ("Rules require engine version "
              <> (sinsp.as_string info.version
                  <> (", but engine version is " <> sinsp.as_string sinsp.engine_version)))
            info.ctx c
        else if sinsp.is_before c.m_required_engine_version.version info.version
        then done (record c { m_required_engine_version = info })
        else done c

    -- The loop over the alternatives, with the names met so far.
    unfoldable pub check_alternatives :
        Context → List String → List Requirement → Option RuleLoadException
    check_alternatives ctx plugin_names [] = none
    check_alternatives ctx plugin_names (req ∷ reqs) =
        let rest = check_alternatives ctx (plugin_names ++ req.name ∷ []) reqs in
        if not (sinsp.is_valid_version (sinsp.sinsp_version req.version))
        then some (record {
          ec = load_err_validate;
          msg =
              "Invalid required version '"
              <> (req.version <> ("' for plugin '" <> (req.name <> "'")));
          ctx = ctx;
        })
        else if contains plugin_names req.name
        then some (record {
          ec = load_err_validate;
          msg =
              "Defined multiple alternative version requirements for plugin '" <> (req.name <> "'");
          ctx = ctx;
        })
        else rest

    unfoldable pub define_plugin_version :
        PluginVersionInfo → Collector SinspVersion → Result (Collector SinspVersion)
    define_plugin_version info c = elim (check_alternatives info.ctx [] info.alternatives) [
      | some err ↦ threw err c
      | none ↦ done (record c {
        m_required_plugin_versions = c.m_required_plugin_versions ++ info.alternatives ∷ [];
      })
    ]
