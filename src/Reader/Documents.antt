-- ===== src/Reader/Documents.antt =====
-- userspace/engine/rule_loader_reader.cpp: how the objects of the documents are read, until one is
-- wrong.
use falco.Prelude.{
  ℕ, String, inl, inr, Bool, true, false, not, ◌&&◌, Option, none, some, List, [], ◌∷◌,
  if◌then◌else◌, nat_eq, string_eq, list_eq,
}
use falco.LoadInfo.{
  rules_content_item, Context, new_context, Configuration, ErrorCode, load_err_yaml_parse,
  load_err_yaml_validate, load_err_validate, load_unknown_item, add_error,
}
use falco.LoadInfo.Contexts.{mark_context}
use falco.Reader.{
  Libraries, Reading, ReaderState, Failure, parser_exception, std_exception, unknown_exception,
  Outcome, returned, raised, failed, unfinished, ◌>>=◌, ◌>>◌, pure, throw_if, warn, context_of,
}
use falco.Reader.Items.{read_engine_version, read_required_plugin_versions, read_list, read_macro}
use falco.Reader.RuleItems.{read_rule}

unfoldable pub record_error : ErrorCode → String → Context → Configuration → Configuration
record_error ec msg ctx cfg = record cfg { res = add_error ec msg ctx cfg.res }

-- The context of a parser's exception; the context of the document has a location.
abbrev mark_or : Option Context → Context → Context
mark_or none ctx = ctx
mark_or (some ictx) ctx = ictx

-- An exception of another kind, where those of the parser are reported under a code.
unfoldable pub record_failure :
    Failure
    → (parse_code other_code : ErrorCode) → (unknown : String) → Context
    → Configuration
    → Configuration
record_failure (parser_exception mark what) parse_code other_code unknown ctx cfg =
    record_error parse_code what (mark_or (mark_context mark ctx) ctx) cfg
record_failure (std_exception what) parse_code other_code unknown ctx cfg =
    record_error other_code what ctx cfg
record_failure unknown_exception parse_code other_code unknown ctx cfg =
    record_error other_code unknown ctx cfg

module _ {Node SinspVersion : Type 0} (lib : Libraries Node SinspVersion) (fuel : ℕ) where
  abbrev Read : Type 0 → Type 0
  Read A = Reading (ReaderState SinspVersion) A

  abbrev is_key : Node → String → Bool
  is_key item key = lib.yaml.is_defined (lib.yaml.get key item)

  unfoldable pub read_item : (item : Node) → (parent : Context) → Read (Unit {0})
  read_item item parent = do
    tmp ← context_of lib item rules_content_item "" parent
    throw_if (not (lib.yaml.is_map item))
        "Unexpected element type. Each element should be a yaml associative array." tmp
    (if is_key item "required_engine_version"
        then read_engine_version lib item parent
        else if is_key item "required_plugin_versions"
        then read_required_plugin_versions lib item parent
        else if is_key item "list"
        then read_list lib item parent
        else if is_key item "macro"
        then read_macro lib item parent
        else if is_key item "rule"
        then read_rule lib fuel item parent
        else (do
          ctx ← context_of lib item rules_content_item "" parent
          warn lib load_unknown_item "Unknown top level item" ctx))

  unfoldable pub read_items : List Node → (ctx : Context) → Read (Unit {0})
  read_items [] ctx = pure tt
  read_items (item ∷ items) ctx = do
    (if lib.yaml.is_null item then pure tt else read_item item ctx)
    read_items items ctx

  unfoldable pub read_document : Node → (ctx : Context) → Read (Unit {0})
  read_document doc ctx =
      if lib.yaml.is_defined doc && not (lib.yaml.is_null doc)
      then (do
        throw_if (not (lib.yaml.is_map doc) && not (lib.yaml.is_sequence doc))
            "Rules content is not yaml" ctx
        throw_if (not (lib.yaml.is_sequence doc)) "Rules content is not yaml array of objects" ctx
        read_items (lib.yaml.elements doc) ctx)
      else pure tt

  unfoldable pub read_documents : List Node → (ctx : Context) → Read (Unit {0})
  read_documents [] ctx = pure tt
  read_documents (doc ∷ docs) ctx = do read_document doc ctx; read_documents docs ctx

  -- The answer of `read`, with the exception recorded; `none` is the end of the fuel.
  unfoldable pub conclude :
      Context
      → Outcome (ReaderState SinspVersion) (Unit {0})
      → Option (Bool × ReaderState SinspVersion)
  conclude ctx (returned u s) = some (true, s)
  conclude ctx (raised err (c, cfg)) = some (false, (c, record_error err.ec err.msg err.ctx cfg))
  conclude ctx (failed f (c, cfg)) = some (
    false,
    (
      c,
      record_failure f load_err_yaml_validate load_err_validate "unknown validation error" ctx cfg,
    ),
  )
  conclude ctx (unfinished s) = none

  unfoldable pub read : ReaderState SinspVersion → Option (Bool × ReaderState SinspVersion)
  read (c, cfg) =
      let ctx = new_context cfg.name in
      elim (lib.yaml.load_all cfg.content) [
        | inl f ↦ some (
          false,
          (
            c,
            record_failure f load_err_yaml_parse load_err_yaml_parse "unknown YAML parsing error"
                ctx cfg,
          ),
        )
        | inr docs ↦ conclude ctx (read_documents docs ctx (c, cfg))
      ]
