-- ===== src/Reader/Trace.antt =====
-- userspace/engine/rule_loader_reader.cpp: the calls and warnings of which a reader's work consists.
use falco.Prelude.{
  ℕ, String, ◌≡◌, refl, subst, ◌⊎◌, inl, inr, Bool, true, false, Option, none, some, List, [], ◌∷◌,
  ◌++◌, nat_eq, string_eq, list_eq, All,
}
use falco.LoadInfo.{Entry, Context, WarningCode, add_warning}
use falco.Collector.{Result, done, threw}
use falco.Collector.Invariant.{after_call}
use falco.Collector.Sequence.{Operation, apply}
use falco.Reader.{
  Libraries, Failure, parser_exception, std_exception, unknown_exception, Outcome, returned, raised,
  failed, unfinished, after, Reading, ReaderState, continue_with, ◌>>=◌, pure, throw_if, or_throw,
  or_fail, located, stop, handle, catch_std, finish_call, collect, warn,
}
use falco.Reader.Closed.{IsClosed}
use falco.Reader.ClosedEntries.{IsElementary, decode_exception_info_entry-closed}
use falco.Reader.ClosedDocuments.{read_documents-closed}
use falco.Reader.Documents.{read_documents}

module _ {Node SinspVersion : Type 0} (lib : Libraries Node SinspVersion) where
  abbrev pub warned :
      WarningCode → String → Context → ReaderState SinspVersion → ReaderState SinspVersion
  warned wc msg ctx (c, cfg) = (c, record cfg { res = add_warning wc msg ctx cfg.res })

  -- From one state to another by calls of the collector, which are listed, and by warnings.
  pub data Trace
      : ReaderState SinspVersion
        → List (Operation SinspVersion)
        → ReaderState SinspVersion
        → Type 0 where
    ends : (s : ReaderState SinspVersion) → Trace s [] s
    warns :
        (wc : WarningCode) (msg : String) (ctx : Context) (s : ReaderState SinspVersion)
        {ops : List (Operation SinspVersion)} {t : ReaderState SinspVersion}
        → Trace (warned wc msg ctx s) ops t
        → Trace s ops t
    calls :
        (op : Operation SinspVersion) (s : ReaderState SinspVersion)
        {ops : List (Operation SinspVersion)} {t : ReaderState SinspVersion}
        → Trace (after_call (apply lib.sinsp lib.supported_operators op s)) ops t
        → Trace s (op ∷ ops) t

  Trace-append :
      {s t u : ReaderState SinspVersion} {ops ops' : List (Operation SinspVersion)}
      → Trace s ops t
      → Trace t ops' u
      → Trace s (ops ++ ops') u
  Trace-append (ends s) q = q
  Trace-append (warns wc msg ctx s p) q = warns wc msg ctx s (Trace-append p q)
  Trace-append (calls op s p) q = calls op s (Trace-append p q)

  abbrev pub IsTraced : ReaderState SinspVersion → ReaderState SinspVersion → Type 0
  IsTraced s t = (ops : List (Operation SinspVersion)) × Trace s ops t

  abbrev Traces : (A : Type 0) → Reading (ReaderState SinspVersion) A → Type 0
  Traces A m = (s : ReaderState SinspVersion) → IsTraced s (after (m s))

  pub none-IsTraced : (s : ReaderState SinspVersion) → IsTraced s s
  none-IsTraced s = ([], ends s)

  join-IsTraced : {s t u : ReaderState SinspVersion} → IsTraced s t → IsTraced t u → IsTraced s u
  join-IsTraced (ops, p) (ops', q) = (ops ++ ops', Trace-append p q)

  continue_with-IsTraced :
      {A B : Type 0} (s : ReaderState SinspVersion) (r : Outcome (ReaderState SinspVersion) A)
      (f : A → Reading (ReaderState SinspVersion) B)
      → IsTraced s (after r)
      → ((a : A) → Traces B (f a))
      → IsTraced s (after (continue_with r f))
  unfolding continue_with
  continue_with-IsTraced s (returned a t) f p q = join-IsTraced p (q a t)
  continue_with-IsTraced s (raised err t) f p q = p
  continue_with-IsTraced s (failed e t) f p q = p
  continue_with-IsTraced s (unfinished t) f p q = p

  handle-IsTraced :
      {A : Type 0} (s : ReaderState SinspVersion) (r : Outcome (ReaderState SinspVersion) A)
      (k : Reading (ReaderState SinspVersion) A)
      → IsTraced s (after r)
      → Traces A k
      → IsTraced s (after (handle r k))
  unfolding handle
  handle-IsTraced s (returned a t) k p q = p
  handle-IsTraced s (raised err t) k p q = join-IsTraced p (q t)
  handle-IsTraced s (failed (parser_exception m w) t) k p q = join-IsTraced p (q t)
  handle-IsTraced s (failed (std_exception w) t) k p q = join-IsTraced p (q t)
  handle-IsTraced s (failed unknown_exception t) k p q = p
  handle-IsTraced s (unfinished t) k p q = p

  >>=-Traces :
      (A B : Type 0) (m : Reading (ReaderState SinspVersion) A)
      (f : A → Reading (ReaderState SinspVersion) B)
      → Traces A m
      → ((a : A) → Traces B (f a))
      → Traces B (m >>= f)
  unfolding ◌>>=◌
  >>=-Traces A B m f p q s = continue_with-IsTraced s (m s) f (p s) q

  pure-Traces : (A : Type 0) (a : A) → Traces A (pure a)
  unfolding pure
  pure-Traces A a s = none-IsTraced s

  throw_if-Traces :
      (b : Bool) (msg : String) (ctx : Context) → Traces (Unit {0}) (throw_if b msg ctx)
  unfolding throw_if
  throw_if-Traces true msg ctx s = none-IsTraced s
  throw_if-Traces false msg ctx s = none-IsTraced s

  or_throw-Traces :
      (A : Type 0) (a : Option A) (msg : String) (ctx : Context) → Traces A (or_throw a msg ctx)
  unfolding or_throw
  or_throw-Traces A none msg ctx s = none-IsTraced s
  or_throw-Traces A (some a) msg ctx s = none-IsTraced s

  or_fail-Traces : (A : Type 0) (a : Failure ⊎ A) → Traces A (or_fail a)
  unfolding or_fail
  or_fail-Traces A (inl f) s = none-IsTraced s
  or_fail-Traces A (inr a) s = none-IsTraced s

  located-Traces : (ctx : Option Context) → Traces Context (located ctx)
  unfolding located
  located-Traces none s = none-IsTraced s
  located-Traces (some ctx) s = none-IsTraced s

  stop-Traces : (A : Type 0) → Traces A stop
  unfolding stop
  stop-Traces A s = none-IsTraced s

  after-finish_call : (r : Result (ReaderState SinspVersion)) → after (finish_call r) ≡ after_call r
  unfolding finish_call
  after-finish_call (done s) = refl
  after-finish_call (threw err s) = refl

  collect-Traces : (op : Operation SinspVersion) → Traces (Unit {0}) (collect lib op)
  unfolding collect
  collect-Traces op s = (
    op ∷ [],
    calls op s (
        subst (λ t. Trace t [] (after (collect lib op s)))
          (after-finish_call (apply lib.sinsp lib.supported_operators op s)) (ends _)),
  )

  catch_std-Traces :
      (A : Type 0) (m k : Reading (ReaderState SinspVersion) A)
      → Traces A m
      → Traces A k
      → Traces A (catch_std m k)
  unfolding catch_std
  catch_std-Traces A m k p q s = handle-IsTraced s (m s) k (p s) q

  warn-Traces :
      (wc : WarningCode) (msg : String) (ctx : Context) → Traces (Unit {0}) (warn lib wc msg ctx)
  unfolding warn
  warn-Traces wc msg ctx s = ([], warns wc msg ctx s (ends _))

  everywhere : (nodes : List Node) → All (λ n. Unit {0}) nodes
  everywhere [] = tt
  everywhere (n ∷ ns) = (tt, everywhere ns)

  Traces-IsElementary : IsElementary lib Traces (λ n node. Unit {0})
  Traces-IsElementary = record {
    pures = pure-Traces;
    chains = >>=-Traces;
    throws = throw_if-Traces;
    throws_else = or_throw-Traces;
    locates = located-Traces;
    stops = λ node fit. stop-Traces Entry;
    get_fits = λ n node key fit. tt;
    elements_fit_less = λ n node fit. everywhere (lib.yaml.elements node);
  }

  pub Traces-IsClosed : (fuel : ℕ) → IsClosed lib fuel Traces (λ node. Unit {0})
  Traces-IsClosed fuel = record {
    pures = pure-Traces;
    chains = >>=-Traces;
    throws = throw_if-Traces;
    throws_else = or_throw-Traces;
    fails_else = or_fail-Traces;
    locates = located-Traces;
    catches = catch_std-Traces;
    calls = collect-Traces;
    warns = warn-Traces;
    decodes = λ node key out ctx optional fit.
        decode_exception_info_entry-closed Traces-IsElementary fuel node key out ctx optional fit;
    values_fit = λ node key fit. tt;
    elements_fit = λ node fit. everywhere (lib.yaml.elements node);
  }

  -- Whatever the reader of the documents does is a sequence of calls and warnings.
  pub read_documents-IsTraced :
      (fuel : ℕ) (docs : List Node) (ctx : Context) (s : ReaderState SinspVersion)
      → IsTraced s (after (read_documents lib fuel docs ctx s))
  read_documents-IsTraced fuel docs ctx s =
      read_documents-closed (Traces-IsClosed fuel) docs ctx (everywhere docs) s
