-- ===== src/Reader/Answer.antt =====
-- userspace/engine/rule_loader_reader.cpp: what the reader's answer says about the collector and about
-- the recorded errors.
use falco.Prelude.{
  ℕ, ◌+◌, ◌^◌, ◌<◌, String, ◌≡◌, refl, ap, ◌∙◌, subst, ◌⊎◌, inl, inr, Bool, true, false, Option,
  none, some, List, arith, if◌then◌else◌, Bool-cases, nat_eq, string_eq, list_eq, length,
  length-append,
}
use falco.IndexedVector.{at}
use falco.LoadInfo.{
  Context, new_context, Configuration, FalcoSource, ErrorCode, add_warning, add_error,
  load_err_yaml_parse, load_err_yaml_validate, load_err_validate,
}
use falco.RuleInfo.{RuleInfo}
use falco.Collector.{Result, done, threw, Collector}
use falco.Collector.Rules.{warn_source, has_other_source, define_rule}
use falco.Collector.Exceptions.{validate_exceptions}
use falco.Collector.Invariant.{after_call, IsOrdered}
use falco.Collector.Sequence.{
  Operation, defines_engine_version, defines_plugin_version, defines_list, appends_list,
  defines_macro, appends_macro, defines_rule, appends_rule, replaces_rule, enables_rule, apply,
  beside, Result-cases, apply-IsStep,
}
use falco.Reader.{
  Libraries, Failure, parser_exception, std_exception, unknown_exception, Outcome, returned, raised,
  failed, unfinished, after, ReaderState,
}
use falco.Reader.Documents.{read, conclude, record_error, record_failure}
use falco.Reader.Trace.{Trace, ends, warns, calls, IsTraced, none-IsTraced, read_documents-IsTraced}

module _ {Node SinspVersion : Type 0} (lib : Libraries Node SinspVersion) where
  -- As many calls as the counter has numbers left keep the order of the collected infos, whatever
  -- warnings come between.
  pub Trace-IsOrdered :
      {s t : ReaderState SinspVersion} {ops : List (Operation SinspVersion)}
      → Trace lib s ops t
      → s.0.m_cur_index + length ops < 2 ^ 32
      → IsOrdered s.0
      → IsOrdered t.0
  Trace-IsOrdered (ends s) b h = h
  Trace-IsOrdered (warns wc msg ctx s p) b h = Trace-IsOrdered p b h
  Trace-IsOrdered (calls op (c, cfg) p) b h =
      let (h', _, le) =
        apply-IsStep lib.sinsp lib.supported_operators op c cfg (omega (arith, b)) h in
      Trace-IsOrdered p (omega (arith, b, le)) h'

  -- No error more, and no answer changed.
  abbrev pub IsQuiet : Configuration → Configuration → Type 0
  IsQuiet cfg cfg' = (cfg'.res.errors ≡ cfg.res.errors) × (cfg'.res.success ≡ cfg.res.success)

  warn_source-IsQuiet :
      (source : Option FalcoSource) (info : RuleInfo) (cfg : Configuration)
      → IsQuiet cfg (warn_source source info cfg)
  unfolding warn_source add_warning
  warn_source-IsQuiet none info cfg = (refl, refl)
  warn_source-IsQuiet (some source) info cfg = (refl, refl)

  beside-IsQuiet :
      (cfg : Configuration) (r : Result (Collector SinspVersion))
      → IsQuiet cfg (after_call (beside cfg r)).1
  beside-IsQuiet cfg (done s) = (refl, refl)
  beside-IsQuiet cfg (threw err s) = (refl, refl)

  define_rule-IsQuiet :
      (ops : List String) (info : RuleInfo) (c : Collector SinspVersion) (cfg : Configuration)
      → IsQuiet cfg (after_call (define_rule ops info (c, cfg))).1
  unfolding define_rule
  define_rule-IsQuiet ops info c cfg =
      elim (Bool-cases (has_other_source (at info.name c.m_rule_infos) info)) [
        | inl e ↦ rw (e, define_rule) (refl, refl)
        | inr e ↦
            elim (Result-cases
              (validate_exceptions ops (at info.source cfg.sources) info.exceptions)) [
                | inl (exs, q) ↦
                    rw (e, q, define_rule)
                      (warn_source-IsQuiet (at info.source cfg.sources) info cfg)
                | inr (err, exs, q) ↦
                    rw (e, q, define_rule)
                      (warn_source-IsQuiet (at info.source cfg.sources) info cfg)
              ]
      ]

  apply-IsQuiet :
      (op : Operation SinspVersion) (c : Collector SinspVersion) (cfg : Configuration)
      → IsQuiet cfg (after_call (apply lib.sinsp lib.supported_operators op (c, cfg))).1
  unfolding apply
  apply-IsQuiet (defines_engine_version info) c cfg = beside-IsQuiet cfg _
  apply-IsQuiet (defines_plugin_version info) c cfg = beside-IsQuiet cfg _
  apply-IsQuiet (defines_list info) c cfg = beside-IsQuiet cfg _
  apply-IsQuiet (appends_list info) c cfg = beside-IsQuiet cfg _
  apply-IsQuiet (defines_macro info) c cfg = beside-IsQuiet cfg _
  apply-IsQuiet (appends_macro info) c cfg = beside-IsQuiet cfg _
  apply-IsQuiet (defines_rule info) c cfg = define_rule-IsQuiet lib.supported_operators info c cfg
  apply-IsQuiet (appends_rule info) c cfg = beside-IsQuiet cfg _
  apply-IsQuiet (replaces_rule info) c cfg = beside-IsQuiet cfg _
  apply-IsQuiet (enables_rule info) c cfg = beside-IsQuiet cfg _

  Trace-IsQuiet :
      {s t : ReaderState SinspVersion} {ops : List (Operation SinspVersion)}
      → Trace lib s ops t
      → IsQuiet s.1 t.1
  unfolding add_warning
  Trace-IsQuiet (ends s) = (refl, refl)
  Trace-IsQuiet (warns wc msg ctx s p) = Trace-IsQuiet p
  Trace-IsQuiet (calls op (c, cfg) p) =
      let (e, f) = apply-IsQuiet op c cfg in let (g, k) = Trace-IsQuiet p in (g ∙ e, k ∙ f)

  -- After the state that the reader reached: nothing more, or one error recorded.
  abbrev pub IsConcluded : Bool → ReaderState SinspVersion → ReaderState SinspVersion → Type 0
  IsConcluded true t u = u ≡ t
  IsConcluded false (c, cfg) u =
      (ec : ErrorCode) × (msg : String) × (ctx : Context) × (u ≡ (c, record_error ec msg ctx cfg))

  record_failure-recorded :
      (f : Failure) (parse_code other_code : ErrorCode) (unknown : String) (ctx : Context)
      (cfg : Configuration)
      → (ec : ErrorCode) × (msg : String) × (ctx' : Context) × (record_failure f parse_code
            other_code unknown ctx cfg
          ≡ record_error ec msg ctx' cfg)
  unfolding record_failure
  record_failure-recorded (parser_exception mark what) p o u ctx cfg = (p, what, _, refl)
  record_failure-recorded (std_exception what) p o u ctx cfg = (o, what, ctx, refl)
  record_failure-recorded unknown_exception p o u ctx cfg = (o, u, ctx, refl)

  load-cases : {A B : Type 0} (x : A ⊎ B) → ((a : A) × (x ≡ inl a)) ⊎ ((b : B) × (x ≡ inr b))
  load-cases (inl a) = inl (a, refl)
  load-cases (inr b) = inr (b, refl)

  abbrev IsAnswered : ReaderState SinspVersion → Option (Bool × ReaderState SinspVersion) → Type 0
  IsAnswered s none = Unit
  IsAnswered s (some (b, u)) = (t : ReaderState SinspVersion) × IsTraced lib s t × IsConcluded b t u

  conclude-IsAnswered :
      (fuel : ℕ) (ctx : Context) (s : ReaderState SinspVersion)
      (r : Outcome (ReaderState SinspVersion) (Unit {0}))
      → IsTraced lib s (after r)
      → IsAnswered s (conclude lib fuel ctx r)
  unfolding conclude
  conclude-IsAnswered fuel ctx s (returned u t) p = (t, p, refl)
  conclude-IsAnswered fuel ctx s (raised err (c, cfg)) p =
      ((c, cfg), p, (err.ec, err.msg, err.ctx, refl))
  conclude-IsAnswered fuel ctx s (failed f (c, cfg)) p =
      let (ec, msg, ctx', e) =
        record_failure-recorded f load_err_yaml_validate load_err_validate
          "unknown validation error" ctx cfg in
      ((c, cfg), p, (ec, msg, ctx', ap (λ cfg'. (c, cfg')) e))
  conclude-IsAnswered fuel ctx s (unfinished t) p = tt

  -- What the reader does to its collector and its configuration, where the fuel is enough, is a
  -- sequence of the collector's calls and of warnings; behind it one error is recorded exactly if the
  -- answer is false.
  pub read-IsTraced :
      (fuel : ℕ) (s u : ReaderState SinspVersion) (b : Bool)
      → read lib fuel s ≡ some (b, u)
      → (t : ReaderState SinspVersion) × IsTraced lib s t × IsConcluded b t u
  unfolding read
  read-IsTraced fuel (c, cfg) u b e =
      subst (IsAnswered (c, cfg)) e (elim (load-cases (lib.yaml.load_all cfg.content)) [
        | inl (f, q) ↦
            let (ec, msg, ctx', r) =
              record_failure-recorded f load_err_yaml_parse load_err_yaml_parse
                "unknown YAML parsing error" (new_context cfg.name) cfg in
            rw (q, read)
              ((c, cfg), none-IsTraced lib (c, cfg), (ec, msg, ctx', ap (λ cfg'. (c, cfg')) r))
        | inr (docs, q) ↦
            rw (q, read)
              (conclude-IsAnswered fuel (new_context cfg.name) (c, cfg) _
                (read_documents-IsTraced lib fuel docs (new_context cfg.name) (c, cfg)))
      ])

  concluded-recorded :
      (s t u : ReaderState SinspVersion) (b : Bool)
      → IsQuiet s.1 t.1
      → s.1.res.success ≡ true
      → IsConcluded b t u
      → (u.1.res.success ≡ b)
        × (length u.1.res.errors ≡ length s.1.res.errors + (if b then 0 else 1))
  unfolding record_error add_error
  concluded-recorded s t u true (e, f) h k = (
    ap (λ (x : ReaderState SinspVersion). x.1.res.success) k ∙ f ∙ h,
    ap (λ (x : ReaderState SinspVersion). length x.1.res.errors) k ∙ ap length e ∙ omega arith,
  )
  concluded-recorded s (d, cfg') u false (e, f) h (ec, msg, ctx, k) = (
    ap (λ (x : ReaderState SinspVersion). x.1.res.success) k,
    ap (λ (x : ReaderState SinspVersion). length x.1.res.errors) k
        ∙ length-append cfg'.res.errors _
        ∙ omega (arith, ap length e),
  )

  -- Of a configuration without errors the result is successful exactly if the answer is true, and one
  -- error is recorded exactly if it is false.
  pub read-errors :
      (fuel : ℕ) (s u : ReaderState SinspVersion) (b : Bool)
      → read lib fuel s ≡ some (b, u)
      → s.1.res.success ≡ true
      → (u.1.res.success ≡ b)
        × (length u.1.res.errors ≡ length s.1.res.errors + (if b then 0 else 1))
  read-errors fuel s u b e h =
      let (t, (ops, p), k) = read-IsTraced fuel s u b e in
      concluded-recorded s t u b (Trace-IsQuiet p) h k
