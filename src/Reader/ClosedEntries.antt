-- ===== src/Reader/ClosedEntries.antt =====
-- userspace/engine/rule_loader_reader.cpp: what the elementary actions have, the decoding of the
-- entries of an exception has.
use falco.Prelude.{
  ℕ, zero, suc, String, Bool, true, false, not, ◌&&◌, Option, none, some, List, [], ◌∷◌,
  if◌then◌else◌, nat_eq, string_eq, list_eq, All,
}
use falco.LoadInfo.{Context, Entry}
use falco.Reader.{Libraries, Reading, ReaderState, ◌>>=◌, pure, throw_if, or_throw, located, stop}
use falco.Reader.Values.{decode_exception_info_entry, decode_each}

module _ {Node SinspVersion : Type 0} (lib : Libraries Node SinspVersion) where
  -- What is asked of a property of actions, and of the nodes that can be decoded with some fuel.
  pub record IsElementary (P : (A : Type 0) → Reading (ReaderState SinspVersion) A → Type 0)
      (Fits : ℕ → Node → Type 0) : Type 1 where
    pub pures : (A : Type 0) (a : A) → P A (pure a)
    pub chains :
        (A B : Type 0) (m : Reading (ReaderState SinspVersion) A)
        (f : A → Reading (ReaderState SinspVersion) B)
        → P A m
        → ((a : A) → P B (f a))
        → P B (m >>= f)
    pub throws : (cond : Bool) (msg : String) (ctx : Context) → P (Unit {0}) (throw_if cond msg ctx)
    pub throws_else :
        (A : Type 0) (a : Option A) (msg : String) (ctx : Context) → P A (or_throw a msg ctx)
    pub locates : (ctx : Option Context) → P Context (located ctx)
    pub stops : (node : Node) → Fits 0 node → P Entry stop
    pub get_fits :
        (n : ℕ) (node : Node) (key : String) → Fits n node → Fits n (lib.yaml.get key node)
    pub elements_fit_less :
        (n : ℕ) (node : Node) → Fits (suc n) node → All (Fits n) (lib.yaml.elements node)

module _ {Node SinspVersion : Type 0} {lib : Libraries Node SinspVersion}
    {P : (A : Type 0) → Reading (ReaderState SinspVersion) A → Type 0} {Fits : ℕ → Node → Type 0}
    (h : IsElementary lib P Fits) where
  then_each :
      {A B : Type 0} {m : Reading (ReaderState SinspVersion) A}
      {f : A → Reading (ReaderState SinspVersion) B}
      → P A m
      → ((a : A) → P B (f a))
      → P B (m >>= f)
  then_each p q = h.chains _ _ _ _ p q

  when_either :
      {A : Type 0} (b : Bool) {m k : Reading (ReaderState SinspVersion) A}
      → P A m
      → P A k
      → P A (if b then m else k)
  when_either true p q = p
  when_either false p q = q

  decode_each-closed :
      (Good : Node → Type 0) (decode : Node → Reading (ReaderState SinspVersion) Entry)
      (vs : List Node)
      → ((v : Node) → Good v → P Entry (decode v))
      → All Good vs
      → P (List Entry) (decode_each lib decode vs)
  unfolding decode_each
  decode_each-closed Good decode [] p g = h.pures _ _
  decode_each-closed Good decode (v ∷ vs) p g =
      then_each (p v g.0) λ _. then_each (decode_each-closed Good decode vs p g.1) λ _. h.pures _ _

  pub decode_exception_info_entry-closed :
      (n : ℕ) (node : Node) (key : Option String) (out : Entry) (ctx : Context) (optional : Bool)
      → Fits n node
      → P Entry (decode_exception_info_entry lib n node key out ctx optional)
  unfolding decode_exception_info_entry
  decode_exception_info_entry-closed zero node key out ctx optional fit = h.stops node fit
  decode_exception_info_entry-closed (suc n) node none out ctx optional fit =
      when_either (not (lib.yaml.is_defined node) && optional) (h.pures _ _) (
        then_each (h.throws _ _ _) λ _. then_each (h.locates _) λ valctx.
          then_each
            (when_either (lib.yaml.is_scalar node)
              (then_each (h.throws _ _ _) λ _. then_each (h.throws_else _ _ _ _) λ _. h.pures _ _)
              (h.pures _ _))
            λ out'.
              when_either (lib.yaml.is_sequence node)
                (then_each
                  (decode_each-closed (Fits n) _ _
                    (λ v g.
                      then_each (h.locates _)
                        λ _. decode_exception_info_entry-closed n v none _ _ _ g)
                    (h.elements_fit_less n node fit))
                  λ _. h.pures _ _)
                (h.pures _ _))
  decode_exception_info_entry-closed (suc n) node (some k) out ctx optional fit =
      let val = lib.yaml.get k node in
      when_either (not (lib.yaml.is_defined val) && optional) (h.pures _ _) (
        then_each (h.throws _ _ _) λ _. then_each (h.locates _) λ valctx.
          then_each
            (when_either (lib.yaml.is_scalar val)
              (then_each (h.throws _ _ _) λ _. then_each (h.throws_else _ _ _ _) λ _. h.pures _ _)
              (h.pures _ _))
            λ out'.
              when_either (lib.yaml.is_sequence val)
                (then_each
                  (decode_each-closed (Fits n) _ _
                    (λ v g.
                      then_each (h.locates _)
                        λ _. decode_exception_info_entry-closed n v none _ _ _ g)
                    (h.elements_fit_less n val (h.get_fits (suc n) node k fit)))
                  λ _. h.pures _ _)
                (h.pures _ _))
