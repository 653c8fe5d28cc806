-- ===== src/Reader/ClosedDocuments.antt =====
-- userspace/engine/rule_loader_reader.cpp: what the elementary actions have, the reading of rules and
-- of documents has.
use falco.Prelude.{
  ℕ, String, Bool, false, not, ◌&&◌, ◌||◌, Option, List, [], ◌∷◌, nat_eq, string_eq, list_eq,
  contains, All,
}
use falco.LoadInfo.{Context}
use falco.RuleInfo.{RuleUpdateInfo}
use falco.Ruleset.{is_empty}
use falco.Rule.{Priority}
use falco.Reader.{Libraries, Reading, ReaderState}
use falco.Reader.Values.{decode_text, decode_flag}
use falco.Reader.Closed.{
  IsClosed, chain, branch, decode_val_generic-closed, decode_tags-closed, decode_overrides-closed,
}
use falco.Reader.ClosedItems.{
  read_rule_exceptions-closed, read_engine_version-closed, read_required_plugin_versions-closed,
  read_append-closed, read_list-closed, read_macro-closed,
}
use falco.Reader.RuleUpdates.{
  check_update_expected, read_update, read_priority, read_common_updates, read_append_update,
  read_replace_update, refuse_keys,
}
use falco.Reader.RuleItems.{
  read_rule_overrides, read_appended_rule, read_enabled, read_defined_rule, read_rule,
}
use falco.Reader.Documents.{read_item, read_items, read_document, read_documents}

module _ {Node SinspVersion : Type 0} {lib : Libraries Node SinspVersion} {fuel : ℕ}
    {P : (A : Type 0) → Reading (ReaderState SinspVersion) A → Type 0} {Fits : Node → Type 0}
    (h : IsClosed lib fuel P Fits) where
  check_update_expected-closed :
      (expected overrides : List String) (type key : String) (ctx : Context)
      → P (Bool × List String) (check_update_expected lib expected overrides type key ctx)
  unfolding check_update_expected
  check_update_expected-closed expected overrides type key ctx =
      branch h (not (contains overrides key)) (h.pures _ _)
        (chain h (h.throws _ _ _) λ _. h.pures _ _)

  read_update-closed :
      {T : Type 0} (read : Reading (ReaderState SinspVersion) T) (expected overrides : List String)
      (type key : String) (ctx : Context)
      → P T read
      → P (Option T × List String) (read_update lib read expected overrides type key ctx)
  unfolding read_update
  read_update-closed read expected overrides type key ctx p =
      chain h (check_update_expected-closed _ _ _ _ _)
        λ b. branch h b.0 (chain h p λ _. h.pures _ _) (h.pures _ _)

  read_priority-closed : (node : Node) (ctx : Context) → P Priority (read_priority lib node ctx)
  unfolding read_priority
  read_priority-closed node ctx =
      chain h (decode_val_generic-closed h _ _ _ _ _ _)
        λ _. chain h (h.locates _) λ _. h.throws_else _ _ _ _

  read_common_updates-closed :
      (node : Node) (name : String) (expected overrides : List String) (type : String)
      (append : Bool) (ctx : Context)
      → Fits node
      → P
          (RuleUpdateInfo × List String)
          (read_common_updates lib fuel node name expected overrides type append ctx)
  unfolding read_common_updates
  read_common_updates-closed node name expected overrides type append ctx fit =
      let text : (key : String) (ks : List String)
          → P (Option String × List String)
              (read_update lib (decode_text lib node key ctx) ks overrides type key ctx) =
        λ key ks. read_update-closed _ _ _ _ _ _ (decode_val_generic-closed h _ _ _ _ _ _) in
      chain h (text "condition" expected) λ c.
        chain h (read_update-closed _ c.1 _ _ _ _ (read_rule_exceptions-closed h _ _ _ fit)) λ e.
          chain h (text "output" e.1) λ o. chain h (text "desc" o.1) λ d.
            chain h (read_update-closed _ d.1 _ _ _ _ (decode_tags-closed h _ _)) λ _. h.pures _ _

  read_append_update-closed :
      (node : Node) (name : String) (expected overrides : List String) (ctx : Context)
      → Fits node
      → P (List String) (read_append_update lib fuel node name expected overrides ctx)
  unfolding read_append_update
  read_append_update-closed node name expected overrides ctx fit =
      chain h (read_common_updates-closed _ _ _ _ _ _ _ fit)
        λ _. chain h (h.calls _) λ _. h.pures _ _

  read_replace_update-closed :
      (node : Node) (name : String) (expected overrides : List String) (ctx : Context)
      → Fits node
      → P (List String) (read_replace_update lib fuel node name expected overrides ctx)
  unfolding read_replace_update
  read_replace_update-closed node name expected overrides ctx fit =
      let flag : (key : String) (ks : List String)
          → P (Option Bool × List String) (
              read_update lib (decode_flag lib node key false ctx) ks overrides "replace" key ctx) =
        λ key ks. read_update-closed _ _ _ _ _ _ (decode_val_generic-closed h _ _ _ _ _ _) in
      chain h (read_common_updates-closed _ _ _ _ _ _ _ fit) λ v.
        chain h (read_update-closed _ v.1 _ _ _ _ (read_priority-closed _ _)) λ p.
          chain h (flag "enabled" p.1) λ e. chain h (flag "warn_evttypes" e.1) λ w.
            chain h (flag "skip-if-unknown-filter" w.1) λ _. chain h (h.calls _) λ _. h.pures _ _

  refuse_keys-closed :
      (node : Node) (keys : List String) (ctx : Context)
      → P (Unit {0}) (refuse_keys lib node keys ctx)
  unfolding refuse_keys
  refuse_keys-closed node [] ctx = h.pures _ _
  refuse_keys-closed node (key ∷ keys) ctx = chain h (h.locates _) λ _. h.throws _ _ _

  read_rule_overrides-closed :
      (node : Node) (name : String) (overrides : List String × List String) (ctx : Context)
      → Fits node
      → P (Unit {0}) (read_rule_overrides lib fuel node name overrides ctx)
  unfolding read_rule_overrides
  read_rule_overrides-closed node name (appends, replaces) ctx fit =
      chain h
        (branch h (not (is_empty appends)) (read_append_update-closed _ _ _ _ _ fit) (h.pures _ _))
        λ _.
          chain h
            (branch h (not (is_empty replaces)) (read_replace_update-closed _ _ _ _ _ fit)
              (h.pures _ _))
            λ _. refuse_keys-closed _ _ _

  read_appended_rule-closed :
      (node : Node) (name : String) (ctx : Context)
      → Fits node
      → P (Unit {0}) (read_appended_rule lib fuel node name ctx)
  unfolding read_appended_rule
  read_appended_rule-closed node name ctx fit =
      let is_key : String → Bool = λ key. lib.yaml.is_defined (lib.yaml.get key node) in
      chain h
        (branch h (is_key "condition")
          (chain h (h.locates _)
            λ _. chain h (decode_val_generic-closed h _ _ _ _ _ _) λ _. h.pures _ _)
          (h.pures _ _))
        λ _.
          chain h
            (branch h (is_key "exceptions")
              (chain h (read_rule_exceptions-closed h _ _ _ fit) λ _. h.pures _ _) (h.pures _ _))
            λ _. h.calls _

  read_enabled-closed :
      (node : Node) (name : String) (ctx : Context)
      → P (Unit {0}) (read_enabled lib fuel node name ctx)
  unfolding read_enabled
  read_enabled-closed node name ctx =
      chain h (decode_val_generic-closed h _ _ _ _ _ _) λ _. chain h (h.warns _ _ _) λ _. h.calls _

  read_defined_rule-closed :
      (node : Node) (name : String) (ctx : Context)
      → Fits node
      → P (Unit {0}) (read_defined_rule lib fuel node name ctx)
  unfolding read_defined_rule
  read_defined_rule-closed node name ctx fit =
      chain h (decode_val_generic-closed h _ _ _ _ _ _) λ _. chain h (h.locates _) λ _.
        chain h (decode_val_generic-closed h _ _ _ _ _ _) λ _. chain h (h.locates _) λ _.
          chain h (decode_val_generic-closed h _ _ _ _ _ _) λ _.
            chain h (read_priority-closed _ _) λ _.
              chain h (decode_val_generic-closed h _ _ _ _ _ _) λ _.
                chain h (decode_val_generic-closed h _ _ _ _ _ _) λ _.
                  chain h (decode_val_generic-closed h _ _ _ _ _ _) λ _.
                    chain h (decode_val_generic-closed h _ _ _ _ _ _) λ _.
                      chain h (decode_tags-closed h _ _)
                        λ _. chain h (read_rule_exceptions-closed h _ _ _ fit) λ _. h.calls _

  read_rule-closed :
      (node : Node) (parent : Context) → Fits node → P (Unit {0}) (read_rule lib fuel node parent)
  unfolding read_rule
  read_rule-closed node parent fit =
      let is_key : String → Bool = λ key. lib.yaml.is_defined (lib.yaml.get key node) in
      chain h (h.locates _) λ _. chain h (decode_val_generic-closed h _ _ _ _ _ _) λ name.
        chain h (h.locates _) λ ctx. chain h (read_append-closed h _ _) λ append.
          chain h (decode_overrides-closed h _ _ _ _) λ o. chain h (h.throws _ _ _) λ _.
            branch h (not (is_empty o.0) || not (is_empty o.1))
              (read_rule_overrides-closed _ _ _ _ fit)
              (branch h append (read_appended_rule-closed _ _ _ fit) (
                branch h
                  (not (is_key "condition")
                    && (not (is_key "output") && (not (is_key "desc") && not (is_key "priority"))))
                  (read_enabled-closed _ _ _) (read_defined_rule-closed _ _ _ fit)))

  read_item-closed :
      (node : Node) (parent : Context) → Fits node → P (Unit {0}) (read_item lib fuel node parent)
  unfolding read_item
  read_item-closed node parent fit =
      let is_key : String → Bool = λ key. lib.yaml.is_defined (lib.yaml.get key node) in
      chain h (h.locates _) λ _. chain h (h.throws _ _ _) λ _.
        branch h (is_key "required_engine_version") (read_engine_version-closed h _ _) (
          branch h (is_key "required_plugin_versions") (read_required_plugin_versions-closed h _ _)
            (branch h (is_key "list") (read_list-closed h _ _) (
              branch h (is_key "macro") (read_macro-closed h _ _) (
                branch h (is_key "rule") (read_rule-closed _ _ fit)
                  (chain h (h.locates _) λ _. h.warns _ _ _)))))

  read_items-closed :
      (nodes : List Node) (ctx : Context)
      → All Fits nodes
      → P (Unit {0}) (read_items lib fuel nodes ctx)
  unfolding read_items
  read_items-closed [] ctx fit = h.pures _ _
  read_items-closed (n ∷ ns) ctx fit =
      chain h (branch h (lib.yaml.is_null n) (h.pures _ _) (read_item-closed n ctx fit.0))
        λ _. read_items-closed ns ctx fit.1

  read_document-closed :
      (doc : Node) (ctx : Context) → Fits doc → P (Unit {0}) (read_document lib fuel doc ctx)
  unfolding read_document
  read_document-closed doc ctx fit =
      branch h (lib.yaml.is_defined doc && not (lib.yaml.is_null doc))
        (chain h (h.throws _ _ _)
          λ _. chain h (h.throws _ _ _) λ _. read_items-closed _ _ (h.elements_fit doc fit))
        (h.pures _ _)

  pub read_documents-closed :
      (docs : List Node) (ctx : Context)
      → All Fits docs
      → P (Unit {0}) (read_documents lib fuel docs ctx)
  unfolding read_documents
  read_documents-closed [] ctx fit = h.pures _ _
  read_documents-closed (d ∷ ds) ctx fit =
      chain h (read_document-closed d ctx fit.0) λ _. read_documents-closed ds ctx fit.1
