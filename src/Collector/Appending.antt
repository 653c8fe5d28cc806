-- ===== src/Collector/Appending.antt =====
-- userspace/engine/rule_loader_collector.cpp: the exceptions that a rule holds are well formed.
use falco.Prelude.{
  suc, String, ◌≡◌, refl, ap, subst, ◌⊎◌, inl, inr, Option, List, [], ◌∷◌, ◌++◌, Bool-cases,
  ==_cases, nat_eq, string_eq, list_eq, length, All, All-append,
}
use falco.LoadInfo.{FalcoSource, RuleLoadException}
use falco.RuleInfo.{RuleExceptionInfo, is_valid}
use falco.Ruleset.{is_empty}
use falco.Collector.{Result, done}
use falco.Collector.Exceptions.{
  Validated, valid, invalid, validate_exception_info, validate_exceptions, has_exception,
  append_values, append_exception, append_exceptions,
}
use falco.Collector.Validation.{IsException, validate_exception_info_iff}
use falco.Collector.Invariant.{after_call}
use falco.Collector.Sequence.{Result-cases}

Validated-cases :
    (v : Validated)
    → ((ex : RuleExceptionInfo) × (v ≡ valid ex)) ⊎ ((err : RuleLoadException) × (v ≡ invalid err))
Validated-cases (valid ex) = inl (ex, refl)
Validated-cases (invalid err) = inr (err, refl)

module _ (ops : List String) (source : Option FalcoSource) where
  abbrev pub AreExceptions : List RuleExceptionInfo → Type 0
  AreExceptions exs = All (IsException ops source) exs

  -- Validation says nothing of the values.
  with_values-IsException :
      (ex : RuleExceptionInfo) (values : List _)
      → IsException ops source ex
      → IsException ops source (record ex { values = values })
  with_values-IsException ex values (inl (l, h)) =
      inl (l, record { same_length = h.same_length; operators = h.operators; fields = h.fields })
  with_values-IsException ex values (inr (l, h)) =
      inr (l, record { no_list = h.no_list; operator = h.operator; field = h.field })

  validated-IsException :
      (ex ex' : RuleExceptionInfo)
      → validate_exception_info ops source ex ≡ valid ex'
      → IsException ops source ex'
  validated-IsException ex ex' h = ((validate_exception_info_iff ops source ex ex').0 h).1

  append_values-AreExceptions :
      (ex : RuleExceptionInfo) (prev : List RuleExceptionInfo)
      → AreExceptions prev
      → AreExceptions (append_values ex prev)
  unfolding append_values
  append_values-AreExceptions ex [] h = tt
  append_values-AreExceptions ex (i ∷ is) h = elim (==_cases i.name ex.name) [
    | inl (t, p) ↦
        rw (t, append_values) (with_values-IsException i (i.values ++ ex.values) h.0, h.1)
    | inr (t, p) ↦ rw (t, append_values) (h.0, append_values-AreExceptions ex is h.1)
  ]

  append_exception-AreExceptions :
      (ex : RuleExceptionInfo) (prev : List RuleExceptionInfo)
      → AreExceptions prev
      → AreExceptions (after_call (append_exception ops source ex prev))
  unfolding append_exception
  append_exception-AreExceptions ex prev h = elim (Bool-cases (has_exception ex.name prev)) [
    | inl n ↦ elim (Bool-cases (is_valid ex.fields)) [
      | inl f ↦ rw (n, f, append_exception) h
      | inr f ↦ elim (Bool-cases (is_valid ex.comps)) [
        | inl v ↦ rw (n, f, v, append_exception) h
        | inr v ↦ rw (n, f, v, append_exception) (append_values-AreExceptions ex prev h)
      ]
    ]
    | inr n ↦ elim (Bool-cases (is_valid ex.fields)) [
      | inr f ↦ rw (n, f, append_exception) h
      | inl f ↦ elim (Bool-cases (is_empty ex.values)) [
        | inl v ↦ rw (n, f, v, append_exception) h
        | inr v ↦ elim (Validated-cases (validate_exception_info ops source ex)) [
          | inr (err, r) ↦ rw (n, f, v, r, append_exception) h
          | inl (ex', r) ↦
              rw (n, f, v, r, append_exception)
                (All-append (IsException ops source) prev (ex' ∷ []) h
                  (validated-IsException ex ex' r, tt))
        ]
      ]
    ]
  ]

  -- Appending keeps the exceptions well formed, also where it throws in the middle.
  pub append_exceptions-AreExceptions :
      (exs prev : List RuleExceptionInfo)
      → AreExceptions prev
      → AreExceptions (after_call (append_exceptions ops source exs prev))
  unfolding append_exceptions
  append_exceptions-AreExceptions [] prev h = h
  append_exceptions-AreExceptions (ex ∷ exs) prev h =
      let k = append_exception-AreExceptions ex prev h in
      elim (Result-cases (append_exception ops source ex prev)) [
        | inl (next, q) ↦
            rw (q, append_exceptions)
              (append_exceptions-AreExceptions exs next
                (subst (λ (r : Result _). AreExceptions (after_call r)) q k))
        | inr (err, next, q) ↦
            rw (q, append_exceptions) (subst (λ (r : Result _). AreExceptions (after_call r)) q k)
      ]

  -- The exceptions that a definition keeps are well formed, one for each given.
  pub validate_exceptions-AreExceptions :
      (exs exs' : List RuleExceptionInfo)
      → validate_exceptions ops source exs ≡ done exs'
      → AreExceptions exs' × (length exs' ≡ length exs)
  unfolding validate_exceptions
  validate_exceptions-AreExceptions [] exs' =
      λ h. subst (λ es. AreExceptions es × (length es ≡ 0)) (ap after_call h) (tt, refl)
  validate_exceptions-AreExceptions (ex ∷ exs) exs' = elim (Bool-cases (is_valid ex.fields)) [
    | inr f ↦ rw (f, validate_exceptions) (λ h. cc)
    | inl f ↦ elim (Validated-cases (validate_exception_info ops source ex)) [
      | inr (err, r) ↦ rw (f, r, validate_exceptions) (λ h. cc)
      | inl (ex', r) ↦ elim (Result-cases (validate_exceptions ops source exs)) [
        | inr (err, es, q) ↦ rw (f, r, q, validate_exceptions) (λ h. cc)
        | inl (es, q) ↦
            rw (f, r, q, validate_exceptions)
              (λ h.
                let (a, n) = validate_exceptions-AreExceptions exs es q in
                subst (λ es. AreExceptions es × (length es ≡ suc (length exs))) (ap after_call h)
                  ((validated-IsException ex ex' r, a), ap suc n))
      ]
    ]
  ]
