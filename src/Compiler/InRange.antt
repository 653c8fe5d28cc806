-- ===== src/Compiler/InRange.antt =====
-- userspace/engine/rule_loader_compiler.cpp: well-formed exceptions are compiled without an access out
-- of range.
use falco.Prelude.{
  ℕ, String, ◌<>◌, ◌≡◌, refl, subst, ◌⊎◌, inl, inr, Bool, true, false, not, ◌&&◌, Option, List, [],
  ◌∷◌, arith, if◌then◌else◌, Bool-cases, ◌==◌, ==_cases, nat_eq, string_eq, list_eq, length, All,
}
use falco.LoadInfo.{RuleLoadException, FalcoSource, Entry, is_list, items}
use falco.RuleInfo.{RuleExceptionInfo}
use falco.Collector.Validation.{IsException}
use falco.Compiler.Conditions.{
  Built, built, threw, out_of_range, item_values, join_fields, list_values, exception_condition,
  add_exceptions, build_rule_exception_infos,
}

-- A result, or an exception where the values do not fit the fields.
abbrev pub IsAnswer : Bool → Built → Type 0
IsAnswer fits (built condition fields) = fits ≡ true
IsAnswer fits (threw err) = fits ≡ false
IsAnswer fits out_of_range = ⊥

-- No value of an exception with one field is a list.
abbrev pub fit_item : List Entry → Bool
fit_item [] = true
fit_item (v ∷ vs) = not (is_list v) && fit_item vs

-- Each value of an exception with a list of fields has as many items.
abbrev pub fit_list : ℕ → List Entry → Bool
fit_list n [] = true
fit_list n (v ∷ vs) = n == length (items v) && fit_list n vs

abbrev pub fits : RuleExceptionInfo → Bool
fits ex =
    if is_list ex.fields then fit_list (length (items ex.fields)) ex.values else fit_item ex.values

abbrev pub fit_all : List RuleExceptionInfo → Bool
fit_all [] = true
fit_all (ex ∷ exs) = fits ex && fit_all exs

item_values-IsAnswer :
    (ex : RuleExceptionInfo) (vals : List Entry) (icond : String) (fields : List String)
    → IsAnswer (fit_item vals) (item_values ex vals icond fields)
unfolding item_values
item_values-IsAnswer ex [] icond fields = refl
item_values-IsAnswer ex (v ∷ vs) icond fields = elim (Bool-cases (is_list v)) [
  | inl e ↦ rw e refl
  | inr e ↦ rw e (item_values-IsAnswer ex vs _ _)
]

module _ (list_operators : List String) where
  join_fields-built :
      (separator : String) (fs cs vs : List Entry) (icond : String) (fields : List String)
      → length fs ≡ length cs
      → length fs ≡ length vs
      → (icond' : String) × (fields' : List String) × (join_fields list_operators separator fs cs vs
            icond fields
          ≡ built icond' fields')
  unfolding join_fields
  join_fields-built sep [] cs vs icond fields h k = (icond, fields, refl)
  join_fields-built sep (f ∷ fs) [] vs icond fields h k = absurd (omega (arith, h))
  join_fields-built sep (f ∷ fs) (c ∷ cs) [] icond fields h k = absurd (omega (arith, k))
  join_fields-built sep (f ∷ fs) (c ∷ cs) (v ∷ vs) icond fields h k =
      join_fields-built " and " fs cs vs _ _ (omega (arith, h)) (omega (arith, k))

  list_values-IsAnswer :
      (ex : RuleExceptionInfo) (vals : List Entry) (icond : String) (fields : List String)
      → length (items ex.fields) ≡ length (items ex.comps)
      → IsAnswer
          (fit_list (length (items ex.fields)) vals)
          (list_values list_operators ex vals icond fields)
  unfolding list_values
  list_values-IsAnswer ex [] icond fields h = refl
  list_values-IsAnswer ex (v ∷ vs) icond fields h =
      elim (==_cases (length (items ex.fields)) (length (items v))) [
        | inr (t, p) ↦ rw (t, list_values) refl
        | inl (t, p) ↦
            let (icond', fields', q) =
              join_fields-built "" (items ex.fields) (items ex.comps) (items v)
                (icond <> ((if icond == "(" then "" else " or ") <> "(")) fields h p in
            rw (t, q, list_values) (list_values-IsAnswer ex vs (icond' <> ")") fields' h)
      ]

  exception_condition-IsAnswer :
      (ops : List String) (source : Option FalcoSource) (ex : RuleExceptionInfo)
      (fields : List String)
      → IsException ops source ex
      → IsAnswer (fits ex) (exception_condition list_operators ex fields)
  unfolding exception_condition
  exception_condition-IsAnswer ops source ex fields (inl (l, h)) =
      rw (l, exception_condition) (list_values-IsAnswer ex ex.values "(" fields h.same_length)
  exception_condition-IsAnswer ops source ex fields (inr (l, h)) =
      rw (l, exception_condition) (item_values-IsAnswer ex ex.values "" fields)

  Built-cases :
      (r : Built)
      → ((c : String) × (fs : List String) × (r ≡ built c fs))
        ⊎ ((err : RuleLoadException) × (r ≡ threw err))
        ⊎ (r ≡ out_of_range)
  Built-cases (built c fs) = inl (c, fs, refl)
  Built-cases (threw err) = inr (inl (err, refl))
  Built-cases out_of_range = inr (inr refl)

  add_exceptions-IsAnswer :
      (ops : List String) (source : Option FalcoSource) (exs : List RuleExceptionInfo)
      (condition : String) (fields : List String)
      → All (IsException ops source) exs
      → IsAnswer (fit_all exs) (add_exceptions list_operators exs condition fields)
  unfolding add_exceptions
  add_exceptions-IsAnswer ops source [] condition fields h = refl
  add_exceptions-IsAnswer ops source (ex ∷ exs) condition fields h =
      let first = exception_condition-IsAnswer ops source ex fields h.0 in
      elim (Built-cases (exception_condition list_operators ex fields)) [
        | inl (c, fs, q) ↦
            let fit : fits ex ≡ true = subst (IsAnswer (fits ex)) q first in
            rw (q, fit, add_exceptions) (add_exceptions-IsAnswer ops source exs _ fs h.1)
        | inr (inl (err, q)) ↦
            let misfit : fits ex ≡ false = subst (IsAnswer (fits ex)) q first in
            rw (q, misfit, add_exceptions) refl
        | inr (inr q) ↦ absurd (subst (IsAnswer (fits ex)) q first)
      ]

  -- Well-formed exceptions are compiled without an access out of range, to a condition exactly if
  -- their values fit the fields, and to an exception otherwise.
  pub build_rule_exception_infos-IsAnswer :
      (ops : List String) (source : Option FalcoSource) (exs : List RuleExceptionInfo)
      (condition : String) (fields : List String)
      → All (IsException ops source) exs
      → IsAnswer (fit_all exs) (build_rule_exception_infos list_operators exs condition fields)
  unfolding build_rule_exception_infos
  build_rule_exception_infos-IsAnswer ops source exs condition fields h =
      add_exceptions-IsAnswer ops source exs ("(" <> (condition <> ")")) fields h
