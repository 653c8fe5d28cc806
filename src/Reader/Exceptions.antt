-- ===== src/Reader/Exceptions.antt =====
-- userspace/engine/rule_loader_reader.cpp: how the exceptions of a rule are read.
use falco.Prelude.{
  ℕ, ◌<>◌, Bool, true, false, not, ◌||◌, none, some, List, [], ◌∷◌, ◌++◌, if◌then◌else◌, ◌==◌,
  nat_eq, string_eq, list_eq,
}
use falco.LoadInfo.{
  exceptions_item, exception, exception_values, exception_value, Context, load_append_no_values,
  load_exception_name_not_unique, Entry, entry, no_entries,
}
use falco.LoadInfo.Contexts.{new_exception}
use falco.RuleInfo.{RuleExceptionInfo}
use falco.Reader.{Libraries, Reading, ReaderState, ◌>>=◌, ◌>>◌, pure, throw_if, warn, context_of}
use falco.Reader.Values.{decode_text, decode_exception_info_entry}

module _ {Node SinspVersion : Type 0} (lib : Libraries Node SinspVersion) (fuel : ℕ) where
  abbrev Read : Type 0 → Type 0
  Read A = Reading (ReaderState SinspVersion) A

  -- A warning for each exception that was read before with the same name.
  unfoldable pub warn_same_name : RuleExceptionInfo → List RuleExceptionInfo → Read (Unit {0})
  warn_same_name v_ex [] = pure tt
  warn_same_name v_ex (ex ∷ exceptions) = do
    if v_ex.name == ex.name
        then warn lib load_exception_name_not_unique
            ("Multiple definitions of exception '" <> (v_ex.name <> "' in the same rule")) v_ex.ctx
        else pure tt
    warn_same_name v_ex exceptions

  unfoldable pub decode_values : List Node → Context → Read (List Entry)
  decode_values [] vals_ctx = pure []
  decode_values (val ∷ vals) vals_ctx = do
    vctx ← context_of lib val exception_value "" vals_ctx
    v ← decode_exception_info_entry lib fuel val none (entry false "" no_entries) vctx false
    vs ← decode_values vals vals_ctx
    pure (v ∷ vs)

  unfoldable pub read_exception_values :
      (exvals : Node) → (ex_ctx : Context) → (append : Bool) → Read (List Entry)
  read_exception_values exvals ex_ctx append =
      if lib.yaml.is_defined exvals
      then (do
        vals_ctx ← context_of lib exvals exception_values "" ex_ctx
        throw_if (not (lib.yaml.is_sequence exvals)) "Rule exception values must be a sequence"
            vals_ctx
        decode_values (lib.yaml.elements exvals) vals_ctx)
      else if append
      then (do
        warn lib load_append_no_values "Overriding/appending exception with no values" ex_ctx
        pure [])
      else pure []

  unfoldable pub read_exception :
      (ex : Node)
      → (exceptions : List RuleExceptionInfo) → (exes_ctx parent : Context) → (append : Bool)
      → Read RuleExceptionInfo
  read_exception ex exceptions exes_ctx parent append = do
    tmp ← context_of lib ex exception "" exes_ctx
    throw_if (not (lib.yaml.is_map ex)) "Rule exception must be a mapping" tmp
    name ← decode_text lib ex "name" tmp
    ex_ctx ← context_of lib ex exception name parent
    let v_ex : RuleExceptionInfo = record (new_exception ex_ctx) { name = name }
    warn_same_name v_ex exceptions
    fields ← decode_exception_info_entry lib fuel ex (some "fields") v_ex.fields ex_ctx append
    comps ← decode_exception_info_entry lib fuel ex (some "comps") v_ex.comps ex_ctx true
    values ← read_exception_values (lib.yaml.get "values" ex) ex_ctx append
    pure (record v_ex { fields = fields; comps = comps; values = values })

  -- The loop over the exceptions, with those read so far.
  unfoldable pub read_exceptions :
      List Node
      → (exceptions : List RuleExceptionInfo) → (exes_ctx parent : Context) → (append : Bool)
      → Read (List RuleExceptionInfo)
  read_exceptions [] exceptions exes_ctx parent append = pure exceptions
  read_exceptions (ex ∷ exs) exceptions exes_ctx parent append = do
    v_ex ← read_exception ex exceptions exes_ctx parent append
    read_exceptions exs (exceptions ++ v_ex ∷ []) exes_ctx parent append

  unfoldable pub read_rule_exceptions :
      (item : Node) → (parent : Context) → (append : Bool) → Read (List RuleExceptionInfo)
  read_rule_exceptions item parent append =
      let exs = lib.yaml.get "exceptions" item in
      if not (lib.yaml.is_defined exs) || lib.yaml.is_null exs then pure [] else do
        exes_ctx ← context_of lib exs exceptions_item "" parent
        throw_if (not (lib.yaml.is_sequence exs)) "Rule exceptions must be a sequence" exes_ctx
        read_exceptions (lib.yaml.elements exs) [] exes_ctx parent append
