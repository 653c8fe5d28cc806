-- ===== src/Reader/ClosedItems.antt =====
-- userspace/engine/rule_loader_reader.cpp: what the elementary actions have, the reading of
-- exceptions, versions, lists and macros has.
use falco.Prelude.{ℕ, String, Bool, not, ◌||◌, List, [], ◌∷◌, ◌==◌, nat_eq, string_eq, list_eq, All}
use falco.LoadInfo.{Context, Entry}
use falco.RuleInfo.{RuleExceptionInfo}
use falco.LoadInfo.{Requirement}
use falco.Reader.{Libraries, Reading, ReaderState}
use falco.Reader.Closed.{
  IsClosed, chain, branch, decode_val_generic-closed, decode_seq-closed, decode_overrides-closed,
}
use falco.Reader.Exceptions.{
  warn_same_name, decode_values, read_exception_values, read_exception, read_exceptions,
  read_rule_exceptions,
}
use falco.Reader.Items.{
  read_engine_version, read_alternatives, read_plugin_alternatives, read_plugin_versions,
  read_required_plugin_versions, read_append, read_override, read_list, read_macro,
}

module _ {Node SinspVersion : Type 0} {lib : Libraries Node SinspVersion} {fuel : ℕ}
    {P : (A : Type 0) → Reading (ReaderState SinspVersion) A → Type 0} {Fits : Node → Type 0}
    (h : IsClosed lib fuel P Fits) where
  warn_same_name-closed :
      (v_ex : RuleExceptionInfo) (exs : List RuleExceptionInfo)
      → P (Unit {0}) (warn_same_name lib fuel v_ex exs)
  unfolding warn_same_name
  warn_same_name-closed v_ex [] = h.pures _ _
  warn_same_name-closed v_ex (ex ∷ exs) =
      chain h (branch h (v_ex.name == ex.name) (h.warns _ _ _) (h.pures _ _))
        λ _. warn_same_name-closed v_ex exs

  decode_values-closed :
      (vals : List Node) (ctx : Context)
      → All Fits vals
      → P (List Entry) (decode_values lib fuel vals ctx)
  unfolding decode_values
  decode_values-closed [] ctx fit = h.pures _ _
  decode_values-closed (v ∷ vs) ctx fit = chain h (h.locates _) λ _.
      chain h (h.decodes _ _ _ _ _ fit.0)
        λ _. chain h (decode_values-closed vs ctx fit.1) λ _. h.pures _ _

  read_exception_values-closed :
      (exvals : Node) (ctx : Context) (append : Bool)
      → Fits exvals
      → P (List Entry) (read_exception_values lib fuel exvals ctx append)
  unfolding read_exception_values
  read_exception_values-closed exvals ctx append fit =
      branch h (lib.yaml.is_defined exvals)
        (chain h (h.locates _)
          λ _. chain h (h.throws _ _ _) λ _. decode_values-closed _ _ (h.elements_fit exvals fit))
        (branch h append (chain h (h.warns _ _ _) λ _. h.pures _ _) (h.pures _ _))

  read_exception-closed :
      (ex : Node) (exs : List RuleExceptionInfo) (exes_ctx parent : Context) (append : Bool)
      → Fits ex
      → P RuleExceptionInfo (read_exception lib fuel ex exs exes_ctx parent append)
  unfolding read_exception
  read_exception-closed ex exs exes_ctx parent append fit = chain h (h.locates _) λ _.
      chain h (h.throws _ _ _) λ _. chain h (decode_val_generic-closed h _ _ _ _ _ _) λ _.
        chain h (h.locates _) λ _. chain h (warn_same_name-closed _ _) λ _.
          chain h (h.decodes _ _ _ _ _ fit) λ _. chain h (h.decodes _ _ _ _ _ fit) λ _.
            chain h (read_exception_values-closed _ _ _ (h.values_fit ex "values" fit))
              λ _. h.pures _ _

  read_exceptions-closed :
      (nodes : List Node) (exs : List RuleExceptionInfo) (exes_ctx parent : Context) (append : Bool)
      → All Fits nodes
      → P (List RuleExceptionInfo) (read_exceptions lib fuel nodes exs exes_ctx parent append)
  unfolding read_exceptions
  read_exceptions-closed [] exs exes_ctx parent append fit = h.pures _ _
  read_exceptions-closed (n ∷ ns) exs exes_ctx parent append fit =
      chain h (read_exception-closed n exs exes_ctx parent append fit.0)
        λ _. read_exceptions-closed ns _ exes_ctx parent append fit.1

  pub read_rule_exceptions-closed :
      (node : Node) (parent : Context) (append : Bool)
      → Fits node
      → P (List RuleExceptionInfo) (read_rule_exceptions lib fuel node parent append)
  unfolding read_rule_exceptions
  read_rule_exceptions-closed node parent append fit =
      let exs = lib.yaml.get "exceptions" node in
      branch h (not (lib.yaml.is_defined exs) || lib.yaml.is_null exs) (h.pures _ _) (
        chain h (h.locates _) λ _. chain h (h.throws _ _ _) λ _.
          read_exceptions-closed _ _ _ _ _
            (h.elements_fit exs (h.values_fit node "exceptions" fit)))

  pub read_engine_version-closed :
      (node : Node) (parent : Context) → P (Unit {0}) (read_engine_version lib node parent)
  unfolding read_engine_version
  read_engine_version-closed node parent = chain h (h.locates _) λ _.
      chain h
        (h.catches _ _ _ (chain h (decode_val_generic-closed h _ _ _ _ _ _) λ _. h.pures _ _) (
          chain h (decode_val_generic-closed h _ _ _ _ _ _)
            λ _. chain h (h.throws _ _ _) λ _. h.pures _ _))
        λ _. h.calls _

  read_alternatives-closed :
      (nodes : List Node) (ctx : Context) → P (List Requirement) (read_alternatives lib nodes ctx)
  unfolding read_alternatives
  read_alternatives-closed [] ctx = h.pures _ _
  read_alternatives-closed (n ∷ ns) ctx = chain h (h.locates _) λ _. chain h (h.throws _ _ _) λ _.
      chain h (decode_val_generic-closed h _ _ _ _ _ _) λ _. chain h (h.locates _) λ _.
        chain h (decode_val_generic-closed h _ _ _ _ _ _)
          λ _. chain h (read_alternatives-closed ns ctx) λ _. h.pures _ _

  read_plugin_alternatives-closed :
      (node : Node) (ctx : Context) → P (List Requirement) (read_plugin_alternatives lib node ctx)
  unfolding read_plugin_alternatives
  read_plugin_alternatives-closed node ctx =
      branch h (lib.yaml.is_defined node)
        (chain h (h.throws _ _ _) λ _. read_alternatives-closed _ _) (h.pures _ _)

  read_plugin_versions-closed :
      (nodes : List Node) (ctx : Context) → P (Unit {0}) (read_plugin_versions lib nodes ctx)
  unfolding read_plugin_versions
  read_plugin_versions-closed [] ctx = h.pures _ _
  read_plugin_versions-closed (n ∷ ns) ctx = chain h (h.locates _) λ _.
      chain h (h.throws _ _ _) λ _. chain h (decode_val_generic-closed h _ _ _ _ _ _) λ _.
        chain h (h.locates _) λ _. chain h (decode_val_generic-closed h _ _ _ _ _ _) λ _.
          chain h (read_plugin_alternatives-closed _ _)
            λ _. chain h (h.calls _) λ _. read_plugin_versions-closed ns ctx

  pub read_required_plugin_versions-closed :
      (node : Node) (parent : Context)
      → P (Unit {0}) (read_required_plugin_versions lib node parent)
  unfolding read_required_plugin_versions
  read_required_plugin_versions-closed node parent =
      chain h (h.locates _) λ _. chain h (h.throws _ _ _) λ _. read_plugin_versions-closed _ _

  pub read_append-closed : (node : Node) (ctx : Context) → P Bool (read_append lib node ctx)
  unfolding read_append
  read_append-closed node ctx =
      chain h (decode_val_generic-closed h _ _ _ _ _ _)
        λ append. chain h (branch h append (h.warns _ _ _) (h.pures _ _)) λ _. h.pures _ _

  read_override-closed :
      (node : Node) (key : String) (append : Bool) (ctx : Context)
      → P Bool (read_override lib node key append ctx)
  unfolding read_override
  read_override-closed node key append ctx =
      chain h (decode_overrides-closed h _ _ _ _) λ _. chain h (h.throws _ _ _) λ _. h.pures _ _

  pub read_list-closed : (node : Node) (parent : Context) → P (Unit {0}) (read_list lib node parent)
  unfolding read_list
  read_list-closed node parent = chain h (h.locates _) λ _.
      chain h (decode_val_generic-closed h _ _ _ _ _ _) λ name. chain h (h.locates _) λ _.
        chain h (branch h (lib.match_barestr name) (h.pures _ _) (h.warns _ _ _)) λ _.
          chain h (decode_val_generic-closed h _ _ _ _ _ _) λ _.
            chain h (decode_seq-closed h _ _ _ _) λ _. chain h (read_append-closed _ _) λ _.
              chain h (read_override-closed _ _ _ _)
                λ append. branch h append (h.calls _) (h.calls _)

  pub read_macro-closed :
      (node : Node) (parent : Context) → P (Unit {0}) (read_macro lib node parent)
  unfolding read_macro
  read_macro-closed node parent = chain h (h.locates _) λ _.
      chain h (decode_val_generic-closed h _ _ _ _ _ _) λ name. chain h (h.locates _) λ _.
        chain h (branch h (lib.match_identifier name) (h.pures _ _) (h.warns _ _ _)) λ _.
          chain h (decode_val_generic-closed h _ _ _ _ _ _) λ _. chain h (h.locates _) λ _.
            chain h (read_append-closed _ _) λ _.
              chain h (read_override-closed _ _ _ _)
                λ append. branch h append (h.calls _) (h.calls _)
