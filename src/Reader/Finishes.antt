-- ===== src/Reader/Finishes.antt =====
-- userspace/engine/rule_loader_reader.cpp: the reader ends on documents whose nodes do not hold
-- themselves.
use falco.Prelude.{
  ℕ, suc, ◌≤◌, ◌<◌, String, ◌≡◌, refl, subst, ◌⊎◌, inl, inr, Bool, true, false, Option, none, some,
  List, [], ◌∷◌, arith, nat_eq, string_eq, list_eq, All,
}
use falco.LoadInfo.{Context, new_context, WarningCode}
use falco.Collector.{Result, done, threw}
use falco.Collector.Sequence.{Operation, apply}
use falco.Reader.{
  Libraries, Yaml, Failure, parser_exception, std_exception, unknown_exception, Outcome, returned,
  raised, failed, unfinished, Reading, ReaderState, continue_with, ◌>>=◌, pure, throw_if, or_throw,
  or_fail, located, handle, catch_std, finish_call, collect, warn,
}
use falco.Reader.Closed.{IsClosed}
use falco.Reader.ClosedEntries.{IsElementary, decode_exception_info_entry-closed}
use falco.Reader.ClosedDocuments.{read_documents-closed}
use falco.Reader.Documents.{read, conclude}

abbrev IsFinished : {S A : Type 0} → Outcome S A → Type 0
IsFinished (unfinished s) = ⊥
IsFinished (returned a s) = Unit
IsFinished (raised err s) = Unit
IsFinished (failed f s) = Unit

-- A document as a tree: the depth of a node, which that of its values does not exceed, and that of
-- its elements does not reach.
pub record Depth {Node : Type 0} (yaml : Yaml Node) : Type 0 where
  pub depth : Node → ℕ
  pub get_le : (node : Node) (key : String) → depth (yaml.get key node) ≤ depth node
  pub elements_lt : (node : Node) → All (λ v. depth v < depth node) (yaml.elements node)

All-weaken :
    {A : Type 0} {P Q : A → Type 0} (xs : List A) → ((a : A) → P a → Q a) → All P xs → All Q xs
All-weaken [] f h = tt
All-weaken (x ∷ xs) f h = (f x h.0, All-weaken xs f h.1)

module _ {Node SinspVersion : Type 0} (lib : Libraries Node SinspVersion) (d : Depth lib.yaml) where
  abbrev Finishes : (A : Type 0) → Reading (ReaderState SinspVersion) A → Type 0
  Finishes A m = (s : ReaderState SinspVersion) → IsFinished (m s)

  continue_with-IsFinished :
      {A B : Type 0} (r : Outcome (ReaderState SinspVersion) A)
      (f : A → Reading (ReaderState SinspVersion) B)
      → IsFinished r
      → ((a : A) → Finishes B (f a))
      → IsFinished (continue_with r f)
  unfolding continue_with
  continue_with-IsFinished (returned a t) f p q = q a t
  continue_with-IsFinished (raised err t) f p q = tt
  continue_with-IsFinished (failed e t) f p q = tt
  continue_with-IsFinished (unfinished t) f p q = p

  handle-IsFinished :
      {A : Type 0} (r : Outcome (ReaderState SinspVersion) A)
      (k : Reading (ReaderState SinspVersion) A)
      → IsFinished r
      → Finishes A k
      → IsFinished (handle r k)
  unfolding handle
  handle-IsFinished (returned a t) k p q = tt
  handle-IsFinished (raised err t) k p q = q t
  handle-IsFinished (failed (parser_exception m w) t) k p q = q t
  handle-IsFinished (failed (std_exception w) t) k p q = q t
  handle-IsFinished (failed unknown_exception t) k p q = tt
  handle-IsFinished (unfinished t) k p q = p

  >>=-Finishes :
      (A B : Type 0) (m : Reading (ReaderState SinspVersion) A)
      (f : A → Reading (ReaderState SinspVersion) B)
      → Finishes A m
      → ((a : A) → Finishes B (f a))
      → Finishes B (m >>= f)
  unfolding ◌>>=◌
  >>=-Finishes A B m f p q s = continue_with-IsFinished (m s) f (p s) q

  pure-Finishes : (A : Type 0) (a : A) → Finishes A (pure a)
  unfolding pure
  pure-Finishes A a s = tt

  throw_if-Finishes :
      (b : Bool) (msg : String) (ctx : Context) → Finishes (Unit {0}) (throw_if b msg ctx)
  unfolding throw_if
  throw_if-Finishes true msg ctx s = tt
  throw_if-Finishes false msg ctx s = tt

  or_throw-Finishes :
      (A : Type 0) (a : Option A) (msg : String) (ctx : Context) → Finishes A (or_throw a msg ctx)
  unfolding or_throw
  or_throw-Finishes A none msg ctx s = tt
  or_throw-Finishes A (some a) msg ctx s = tt

  or_fail-Finishes : (A : Type 0) (a : Failure ⊎ A) → Finishes A (or_fail a)
  unfolding or_fail
  or_fail-Finishes A (inl f) s = tt
  or_fail-Finishes A (inr a) s = tt

  located-Finishes : (ctx : Option Context) → Finishes Context (located ctx)
  unfolding located
  located-Finishes none s = tt
  located-Finishes (some ctx) s = tt

  finish_call-IsFinished : (r : Result (ReaderState SinspVersion)) → IsFinished (finish_call r)
  unfolding finish_call
  finish_call-IsFinished (done s) = tt
  finish_call-IsFinished (threw err s) = tt

  collect-Finishes : (op : Operation SinspVersion) → Finishes (Unit {0}) (collect lib op)
  unfolding collect
  collect-Finishes op s = finish_call-IsFinished (apply lib.sinsp lib.supported_operators op s)

  catch_std-Finishes :
      (A : Type 0) (m k : Reading (ReaderState SinspVersion) A)
      → Finishes A m
      → Finishes A k
      → Finishes A (catch_std m k)
  unfolding catch_std
  catch_std-Finishes A m k p q s = handle-IsFinished (m s) k (p s) q

  warn-Finishes :
      (wc : WarningCode) (msg : String) (ctx : Context) → Finishes (Unit {0}) (warn lib wc msg ctx)
  unfolding warn
  warn-Finishes wc msg ctx s = tt

  abbrev Fits : ℕ → Node → Type 0
  Fits n node = d.depth node < n

  elements_fit : (n : ℕ) (node : Node) → Fits (suc n) node → All (Fits n) (lib.yaml.elements node)
  elements_fit n node fit =
      All-weaken (lib.yaml.elements node) (λ v lt. omega (arith, lt, fit)) (d.elements_lt node)

  Finishes-IsElementary : IsElementary lib Finishes Fits
  Finishes-IsElementary = record {
    pures = pure-Finishes;
    chains = >>=-Finishes;
    throws = throw_if-Finishes;
    throws_else = or_throw-Finishes;
    locates = located-Finishes;
    stops = λ node fit. absurd (omega (arith, fit));
    get_fits = λ n node key fit. omega (arith, fit, d.get_le node key);
    elements_fit_less = elements_fit;
  }

  Finishes-IsClosed : (fuel : ℕ) → IsClosed lib fuel Finishes (Fits fuel)
  Finishes-IsClosed fuel = record {
    pures = pure-Finishes;
    chains = >>=-Finishes;
    throws = throw_if-Finishes;
    throws_else = or_throw-Finishes;
    fails_else = or_fail-Finishes;
    locates = located-Finishes;
    catches = catch_std-Finishes;
    calls = collect-Finishes;
    warns = warn-Finishes;
    decodes = λ node key out ctx optional fit.
        decode_exception_info_entry-closed Finishes-IsElementary fuel node key out ctx optional fit;
    values_fit = λ node key fit. omega (arith, fit, d.get_le node key);
    elements_fit = λ node fit.
        All-weaken (lib.yaml.elements node) (λ v lt. omega (arith, lt, fit)) (d.elements_lt node);
  }

  concludes :
      (fuel : ℕ) (ctx : Context) (r : Outcome (ReaderState SinspVersion) (Unit {0}))
      → IsFinished r
      → (x : Bool × ReaderState SinspVersion) × (conclude lib fuel ctx r ≡ some x)
  unfolding conclude
  concludes fuel ctx (returned u s) p = (_, refl)
  concludes fuel ctx (raised err s) p = (_, refl)
  concludes fuel ctx (failed f s) p = (_, refl)
  concludes fuel ctx (unfinished s) p = elim p [ ]

  -- The documents of a content fit the fuel where it can be loaded.
  abbrev pub DocsFit : ℕ → (Failure ⊎ List Node) → Type 0
  DocsFit fuel (inl f) = Unit
  DocsFit fuel (inr docs) = All (Fits fuel) docs

  load-cases :
      (x : Failure ⊎ List Node)
      → ((f : Failure) × (x ≡ inl f)) ⊎ ((docs : List Node) × (x ≡ inr docs))
  load-cases (inl f) = inl (f, refl)
  load-cases (inr docs) = inr (docs, refl)

  -- With more fuel than the documents are deep the reader answers.
  pub read-total :
      (fuel : ℕ) (s : ReaderState SinspVersion)
      → DocsFit fuel (lib.yaml.load_all s.1.content)
      → (x : Bool × ReaderState SinspVersion) × (read lib fuel s ≡ some x)
  unfolding read
  read-total fuel (c, cfg) fit = elim (load-cases (lib.yaml.load_all cfg.content)) [
    | inl (f, q) ↦ rw (q, read) (_, refl)
    | inr (docs, q) ↦
        let fits : All (Fits fuel) docs = subst (DocsFit fuel) q fit in
        rw (q, read)
          (concludes fuel (new_context cfg.name) _ (
            read_documents-closed (Finishes-IsClosed fuel) docs (new_context cfg.name) fits
              (c, cfg)))
  ]
