-- ===== src/Reader/Values.antt =====
-- userspace/engine/rule_loader_reader.cpp: how the values of an object are decoded.
use falco.Prelude.{
  ℕ, zero, suc, String, ◌<>◌, Bool, true, false, not, ◌&&◌, Option, none, some, List, [], ◌∷◌, ◌++◌,
  if◌then◌else◌, ◌==◌, nat_eq, string_eq, list_eq, contains,
}
use falco.LoadInfo.{
  value_for, list_item, override, exception, Context, Entry, entry, no_entries, item, items,
  to_entries,
}
use falco.RuleInfo.{is_empty_text}
use falco.Collector.Rules.{insert_tags}
use falco.Reader.{
  Libraries, Reading, ReaderState, ◌>>=◌, ◌>>◌, pure, throw_if, or_throw, or_fail, stop, context_of,
}

module _ {Node SinspVersion : Type 0} (lib : Libraries Node SinspVersion) where
  abbrev Read : Type 0 → Type 0
  Read A = Reading (ReaderState SinspVersion) A

  -- The value of a key of an object, in place of `out`, which is left where the key is optional and
  -- missing.
  unfoldable pub decode_val_generic :
      {T : Type 0}
      → (decode : Node → Option T) → (item : Node) → (key : String) → (out : T) → Context
      → (optional : Bool) → Read T
  decode_val_generic decode item key out ctx optional =
      let val = lib.yaml.get key item in
      if not (lib.yaml.is_defined val) && optional then pure out else do
        throw_if (not (lib.yaml.is_defined val)) ("Item has no mapping for key '" <> (key <> "'"))
            ctx
        throw_if (lib.yaml.is_null val) ("Mapping for key '" <> (key <> "' is empty")) ctx
        valctx ← context_of lib val value_for key ctx
        throw_if (not (lib.yaml.is_scalar val)) "Value is not a scalar value" valctx
        throw_if (is_empty_text (lib.yaml.scalar val)) "Value must be non-empty" valctx
        or_throw (decode val) "Can't decode YAML scalar value" valctx

  -- `decode_val` of a text.
  abbrev pub decode_text : (item : Node) → (key : String) → Context → Read String
  decode_text item key ctx = decode_val_generic lib.yaml.decode_string item key "" ctx false

  -- `decode_val` of a truth value, into a variable that holds `out`.
  abbrev pub decode_flag : (item : Node) → (key : String) → (out : Bool) → Context → Read Bool
  decode_flag item key out ctx = decode_val_generic lib.yaml.decode_bool item key out ctx false

  abbrev pub decode_optional_text :
      (item : Node) → (key : String) → (out : String) → Context → Read String
  decode_optional_text item key out ctx =
      decode_val_generic lib.yaml.decode_string item key out ctx true

  abbrev pub decode_optional_flag :
      (item : Node) → (key : String) → (out : Bool) → Context → Read Bool
  decode_optional_flag item key out ctx =
      decode_val_generic lib.yaml.decode_bool item key out ctx true

  -- The loop over the elements of a sequence of texts.
  unfoldable pub decode_elements : List Node → Context → Read (List String)
  decode_elements [] valctx = pure []
  decode_elements (v ∷ vs) valctx = do
    ictx ← context_of lib v list_item "" valctx
    throw_if (not (lib.yaml.is_scalar v)) "sequence value is not scalar" ictx
    value ← or_throw (lib.yaml.decode_string v) "Can't decode YAML sequence value" ictx
    values ← decode_elements vs valctx
    pure (value ∷ values)

  unfoldable pub decode_seq :
      (item : Node) → (key : String) → Context → (optional : Bool) → Read (List String)
  decode_seq item key ctx optional =
      let val = lib.yaml.get key item in
      if not (lib.yaml.is_defined val) && optional then pure [] else do
        throw_if (not (lib.yaml.is_defined val)) ("Item has no mapping for key '" <> (key <> "'"))
            ctx
        valctx ← context_of lib val value_for key ctx
        throw_if (not (lib.yaml.is_sequence val)) "Value is not a sequence" valctx
        decode_elements (lib.yaml.elements val) valctx

  abbrev pub decode_items : (item : Node) → Context → Read (List String)
  decode_items item ctx = decode_seq item "items" ctx false

  -- A `std::set` is the list of its elements, each once.
  unfoldable pub decode_tags : (item : Node) → Context → Read (List String)
  decode_tags item ctx = do values ← decode_seq item "tags" ctx true; pure (insert_tags values [])

  -- The keys that are to be appended, and those that are to be replaced.
  abbrev pub Overrides : Type 0
  Overrides = List String × List String

  unfoldable pub decode_override :
      (overridable_append overridable_replace : List String)
      → (key_node value_node : Node) → Overrides
      → Context
      → Read Overrides
  decode_override overridable_append overridable_replace key_node value_node
        (out_append, out_replace) overridectx =
      do
        key ← or_fail (lib.yaml.as_string key_node)
        operation ← or_fail (lib.yaml.as_string value_node)
        let is_overridable_append = contains overridable_append key
        let is_overridable_replace = contains overridable_replace key
        if operation == "append"
            then (do
              keyctx ← context_of lib key_node override key overridectx
              throw_if (not is_overridable_append)
                  ("Key '" <> (key <> "' cannot be appended to, use 'replace' instead")) keyctx
              pure (insert_tags (key ∷ []) out_append, out_replace))
            else if operation == "replace"
            then (do
              keyctx ← context_of lib key_node override key overridectx
              throw_if (not is_overridable_replace) ("Key '" <> (key <> "' cannot be replaced"))
                  keyctx
              pure (out_append, insert_tags (key ∷ []) out_replace))
            else (do
              operationctx ← context_of lib value_node value_for key overridectx
              or_throw none
                  ("Invalid override operation for key '"
                    <> (key
                        <> ("': '"
                            <> (operation
                                <> ("'. Allowed values are: "
                                    <> ((if is_overridable_append then "append " else "")
                                        <> (if is_overridable_replace then "replace " else "")))))))
                  operationctx)

  unfoldable pub decode_each_override :
      (overridable_append overridable_replace : List String)
      → List (Node × Node)
      → Overrides
      → Context
      → Read Overrides
  decode_each_override overridable_append overridable_replace [] out overridectx = pure out
  decode_each_override overridable_append overridable_replace ((k, v) ∷ pairs) out overridectx = do
    out' ← decode_override overridable_append overridable_replace k v out overridectx
    decode_each_override overridable_append overridable_replace pairs out' overridectx

  unfoldable pub decode_overrides :
      (item : Node)
      → (overridable_append overridable_replace : List String) → Context
      → Read Overrides
  decode_overrides item overridable_append overridable_replace ctx =
      let val = lib.yaml.get "override" item in
      if not (lib.yaml.is_defined val) then pure ([], []) else do
        overridectx ← context_of lib item override "" ctx
        decode_each_override overridable_append overridable_replace (lib.yaml.pairs val) ([], [])
            overridectx

  -- A sequence of nodes, each decoded.
  unfoldable pub decode_each : (Node → Read Entry) → List Node → Read (List Entry)
  decode_each decode [] = pure []
  decode_each decode (v ∷ vs) = do e ← decode v; es ← decode_each decode vs; pure (e ∷ es)

  -- An entry of an exception: the value of a key, or, without a key, the node itself.
  unfoldable pub decode_exception_info_entry :
      (fuel : ℕ)
      → (item : Node) → (key : Option String) → (out : Entry) → Context
      → (optional : Bool) → Read Entry
  decode_exception_info_entry zero node key out ctx optional = stop
  decode_exception_info_entry (suc fuel) node key out ctx optional =
      let val : Node = elim key [ none ↦ node | some k ↦ lib.yaml.get k node ] in
      let key_text : String = elim key [ none ↦ "" | some k ↦ k ] in
      if not (lib.yaml.is_defined val) && optional then pure out else do
        throw_if (not (lib.yaml.is_defined val))
            ("Item has no mapping for key '" <> (key_text <> "'")) ctx
        valctx ← context_of lib val value_for key_text ctx
        out' ←
            if lib.yaml.is_scalar val
            then (do
              throw_if (is_empty_text (lib.yaml.scalar val)) "Value must be non-empty" valctx
              text ← or_throw (lib.yaml.decode_string val) "Could not decode scalar value" valctx
              pure (entry false text (to_entries (items out))))
            else pure out
        if lib.yaml.is_sequence val
            then (do
              es ←
                  decode_each
                    (λ v. do
                      lctx ← context_of lib v exception "" valctx
                      decode_exception_info_entry fuel v none (entry false "" no_entries) lctx
                          false)
                    (lib.yaml.elements val)
              pure (entry true (item out') (to_entries (items out' ++ es))))
            else pure out'
