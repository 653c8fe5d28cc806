-- ===== src/Reader/Closed.antt =====
-- userspace/engine/rule_loader_reader.cpp: properties of actions that the reader has as soon as its
-- elementary actions have them.
use falco.Prelude.{
  ℕ, String, ◌⊎◌, Bool, true, false, Option, List, [], ◌∷◌, if◌then◌else◌, ◌==◌, nat_eq, string_eq,
  list_eq, All,
}
use falco.LoadInfo.{Context, WarningCode, Entry}
use falco.Collector.Sequence.{Operation}
use falco.Reader.{
  Libraries, Failure, Reading, ReaderState, ◌>>=◌, pure, throw_if, or_throw, or_fail, located,
  catch_std, collect, warn,
}
use falco.Reader.Values.{
  decode_val_generic, decode_elements, decode_seq, decode_tags, decode_override,
  decode_each_override, decode_overrides, decode_exception_info_entry,
}

module _ {Node SinspVersion : Type 0} (lib : Libraries Node SinspVersion) (fuel : ℕ) where
  abbrev Read : Type 0 → Type 0
  Read A = Reading (ReaderState SinspVersion) A

  -- A property of actions that the elementary ones have and that goes over to chains, and nodes whose
  -- entries can be decoded.
  pub record IsClosed (P : (A : Type 0) → Read A → Type 0) (Fits : Node → Type 0) : Type 1 where
    pub pures : (A : Type 0) (a : A) → P A (pure a)
    pub chains :
        (A B : Type 0) (m : Read A) (f : A → Read B) → P A m → ((a : A) → P B (f a)) → P B (m >>= f)
    pub throws : (cond : Bool) (msg : String) (ctx : Context) → P (Unit {0}) (throw_if cond msg ctx)
    pub throws_else :
        (A : Type 0) (a : Option A) (msg : String) (ctx : Context) → P A (or_throw a msg ctx)
    pub fails_else : (A : Type 0) (a : Failure ⊎ A) → P A (or_fail a)
    pub locates : (ctx : Option Context) → P Context (located ctx)
    pub catches : (A : Type 0) (m k : Read A) → P A m → P A k → P A (catch_std m k)
    pub calls : (op : Operation SinspVersion) → P (Unit {0}) (collect lib op)
    pub warns :
        (wc : WarningCode) (msg : String) (ctx : Context) → P (Unit {0}) (warn lib wc msg ctx)
    pub decodes :
        (node : Node) (key : Option String) (out : Entry) (ctx : Context) (optional : Bool)
        → Fits node
        → P Entry (decode_exception_info_entry lib fuel node key out ctx optional)
    pub values_fit : (node : Node) (key : String) → Fits node → Fits (lib.yaml.get key node)
    pub elements_fit : (node : Node) → Fits node → All Fits (lib.yaml.elements node)

module _ {Node SinspVersion : Type 0} {lib : Libraries Node SinspVersion} {fuel : ℕ}
    {P : (A : Type 0) → Reading (ReaderState SinspVersion) A → Type 0} {Fits : Node → Type 0}
    (h : IsClosed lib fuel P Fits) where
  pub chain :
      {A B : Type 0} {m : Reading (ReaderState SinspVersion) A}
      {f : A → Reading (ReaderState SinspVersion) B}
      → P A m
      → ((a : A) → P B (f a))
      → P B (m >>= f)
  chain p q = h.chains _ _ _ _ p q

  pub branch :
      {A : Type 0} (b : Bool) {m k : Reading (ReaderState SinspVersion) A}
      → P A m
      → P A k
      → P A (if b then m else k)
  branch true p q = p
  branch false p q = q

  pub decode_val_generic-closed :
      {T : Type 0} (decode : Node → Option T) (node : Node) (key : String) (out : T) (ctx : Context)
      (optional : Bool)
      → P T (decode_val_generic lib decode node key out ctx optional)
  unfolding decode_val_generic
  decode_val_generic-closed decode node key out ctx optional = branch _ (h.pures _ _) (
      chain (h.throws _ _ _) λ _. chain (h.throws _ _ _) λ _.
        chain (h.locates _)
          λ _. chain (h.throws _ _ _) λ _. chain (h.throws _ _ _) λ _. h.throws_else _ _ _ _)

  decode_elements-closed :
      (vs : List Node) (ctx : Context) → P (List String) (decode_elements lib vs ctx)
  unfolding decode_elements
  decode_elements-closed [] ctx = h.pures _ _
  decode_elements-closed (v ∷ vs) ctx = chain (h.locates _) λ _.
      chain (h.throws _ _ _) λ _.
        chain (h.throws_else _ _ _ _) λ _. chain (decode_elements-closed vs ctx) λ _. h.pures _ _

  pub decode_seq-closed :
      (node : Node) (key : String) (ctx : Context) (optional : Bool)
      → P (List String) (decode_seq lib node key ctx optional)
  unfolding decode_seq
  decode_seq-closed node key ctx optional = branch _ (h.pures _ _) (
      chain (h.throws _ _ _)
        λ _. chain (h.locates _) λ _. chain (h.throws _ _ _) λ _. decode_elements-closed _ _)

  pub decode_tags-closed :
      (node : Node) (ctx : Context) → P (List String) (decode_tags lib node ctx)
  unfolding decode_tags
  decode_tags-closed node ctx = chain (decode_seq-closed _ _ _ _) λ _. h.pures _ _

  decode_override-closed :
      (appends replaces : List String) (k v : Node) (out : List String × List String)
      (ctx : Context)
      → P (List String × List String) (decode_override lib appends replaces k v out ctx)
  unfolding decode_override
  decode_override-closed appends replaces k v out ctx = chain (h.fails_else _ _) λ key.
      chain (h.fails_else _ _) λ operation.
        branch (operation == "append")
          (chain (h.locates _) λ _. chain (h.throws _ _ _) λ _. h.pures _ _)
          (branch (operation == "replace")
            (chain (h.locates _) λ _. chain (h.throws _ _ _) λ _. h.pures _ _)
            (chain (h.locates _) λ _. h.throws_else _ _ _ _))

  decode_each_override-closed :
      (appends replaces : List String) (pairs : List (Node × Node))
      (out : List String × List String) (ctx : Context)
      → P (List String × List String) (decode_each_override lib appends replaces pairs out ctx)
  unfolding decode_each_override
  decode_each_override-closed appends replaces [] out ctx = h.pures _ _
  decode_each_override-closed appends replaces ((k, v) ∷ pairs) out ctx =
      chain (decode_override-closed _ _ _ _ _ _)
        λ out'. decode_each_override-closed appends replaces pairs out' ctx

  pub decode_overrides-closed :
      (node : Node) (appends replaces : List String) (ctx : Context)
      → P (List String × List String) (decode_overrides lib node appends replaces ctx)
  unfolding decode_overrides
  decode_overrides-closed node appends replaces ctx =
      branch _ (h.pures _ _)
        (chain (h.locates _) λ _. decode_each_override-closed appends replaces _ _ _)
