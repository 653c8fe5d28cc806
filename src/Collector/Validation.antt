-- ===== src/Collector/Validation.antt =====
-- userspace/engine/rule_loader_collector.cpp: what a validated rule exception looks like.
use falco.Prelude.{
  String, ◌≡◌, refl, sym, ap, ◌∙◌, subst, ◌↔◌, ◌⊎◌, inl, inr, Bool, true, false, not, ◌&&◌, Option,
  none, List, [], ◌∷◌, arith, Bool-cases, Option-cases, ◌==◌, ==_self, ==_cases, nat_eq, string_eq,
  list_eq, contains, length, All,
}
use mathlib.Core.Bool.{true≢false}
use mathlib.Core.Option.{none-ne-some}
use falco.LoadInfo.{FalcoSource, Entry, to_list, to_entries, is_list, item, items}
use falco.RuleInfo.{RuleExceptionInfo}
use falco.Collector.Completed.{completed, IsCompleted, completed-IsCompleted, IsCompleted-unique}
use falco.Collector.Exceptions.{
  valid, is_field, first_refused, is_operator_defined, list_comps, check_fields, check_comps,
  item_comps, check_item, validate_exception_info,
}

to_list-to_entries : (es : List Entry) → to_list (to_entries es) ≡ es
to_list-to_entries [] = refl
to_list-to_entries (e ∷ es) = ap (λ r. e ∷ r) (to_list-to_entries es)

-- No entry is refused exactly if each passes the test.
first_refused-All :
    (test : String → Bool) (es : List Entry)
    → first_refused test es ≡ none
    → All (λ e. test (item e) ≡ true) es
unfolding first_refused
first_refused-All test [] h = tt
first_refused-All test (e ∷ es) h = elim (Bool-cases (test (item e))) [
  | inl q ↦ (q, first_refused-All test es (sym (rw (q, first_refused) refl) ∙ h))
  | inr q ↦ absurd (none-ne-some e (sym h ∙ rw (q, first_refused) refl))
]

All-first_refused :
    (test : String → Bool) (es : List Entry)
    → All (λ e. test (item e) ≡ true) es
    → first_refused test es ≡ none
unfolding first_refused
All-first_refused test [] h = refl
All-first_refused test (e ∷ es) h = rw (h.0, first_refused) (All-first_refused test es h.1)

-- None of the three operators that a single field may have.
abbrev is_no_operator : String → Bool
is_no_operator op = not (op == "in") && not (op == "pmatch") && not (op == "intersects")

abbrev IsOperator : String → Type 0
IsOperator op = (op ≡ "in") ⊎ (op ≡ "pmatch") ⊎ (op ≡ "intersects")

operator-tests : (op : String) → IsOperator op → is_no_operator op ≡ false
operator-tests op h = ground arith

Operator-cases :
    (op : String) → (is_no_operator op ≡ false) × IsOperator op ⊎ (is_no_operator op ≡ true)
Operator-cases op = ground arith

module _ (supported_operators : List String) where
  -- As many operators as fields, all of them supported, and all the fields valid.
  pub record IsListException (source : Option FalcoSource) (ex : RuleExceptionInfo) : Type 0 where
    pub same_length : length (items ex.fields) ≡ length (items ex.comps)
    pub operators : All (λ e. contains supported_operators (item e) ≡ true) (items ex.comps)
    pub fields : All (λ e. is_field source (item e) ≡ true) (items ex.fields)

  -- One operator over sets for one valid field.
  pub record IsItemException (source : Option FalcoSource) (ex : RuleExceptionInfo) : Type 0 where
    pub no_list : is_list ex.comps ≡ false
    pub operator :
        (item ex.comps ≡ "in") ⊎ (item ex.comps ≡ "pmatch") ⊎ (item ex.comps ≡ "intersects")
    pub field : is_field source (item ex.fields) ≡ true

  abbrev pub IsException : Option FalcoSource → RuleExceptionInfo → Type 0
  IsException source ex =
      (is_list ex.fields ≡ true) × IsListException source ex
      ⊎ (is_list ex.fields ≡ false) × IsItemException source ex

  -- A chain of checks whose answers are independent of one another.
  check_fields-valid :
      (source : Option FalcoSource) (ex ex' : RuleExceptionInfo)
      → check_fields supported_operators source ex ≡ valid ex'
      → (ex' ≡ ex) × All (λ e. is_field source (item e) ≡ true) (items ex.fields)
  unfolding check_fields
  check_fields-valid source ex ex' =
      elim (Option-cases (first_refused (is_field source) (items ex.fields))) [
        | inl q ↦
            rw (q, check_fields)
              (λ h. (cc, first_refused-All (is_field source) (items ex.fields) q))
        | inr (v, q) ↦ rw (q, check_fields) (λ h. cc)
      ]

  check_comps-valid :
      (source : Option FalcoSource) (ex ex' : RuleExceptionInfo)
      → check_comps supported_operators source ex ≡ valid ex'
      → (ex' ≡ ex) × IsListException source ex
  unfolding check_comps is_operator_defined
  check_comps-valid source ex ex' =
      elim (==_cases (length (items ex.fields)) (length (items ex.comps))) [
        | inr (t, p) ↦ rw (t, check_comps) (λ h. cc)
        | inl (t, p) ↦
            elim (Option-cases
              (first_refused (is_operator_defined supported_operators) (items ex.comps))) [
                | inr (v, q) ↦ rw (t, q, check_comps) (λ h. cc)
                | inl q ↦
                    rw (t, q, check_comps)
                      (λ h.
                        let (e, f) = check_fields-valid source ex ex' h in
                        (
                          e,
                          record {
                            same_length = p;
                            operators =
                                first_refused-All (is_operator_defined supported_operators)
                                  (items ex.comps) q;
                            fields = f;
                          },
                        ))
              ]
      ]

  IsListException-check_comps :
      (source : Option FalcoSource) (ex : RuleExceptionInfo)
      → IsListException source ex
      → check_comps supported_operators source ex ≡ valid ex
  unfolding check_comps check_fields is_operator_defined
  IsListException-check_comps source ex h =
      rw
        (
          h.same_length,
          ==_self (length (items ex.comps)),
          All-first_refused (is_operator_defined supported_operators) (items ex.comps) h.operators,
          All-first_refused (is_field source) (items ex.fields) h.fields,
          check_comps,
          check_fields,
        )
        refl

  check_item-valid :
      (source : Option FalcoSource) (ex ex' : RuleExceptionInfo)
      → check_item supported_operators source ex ≡ valid ex'
      → (ex' ≡ ex) × IsItemException source ex
  unfolding check_item
  check_item-valid source ex ex' = elim (Bool-cases (is_list ex.comps)) [
    | inl l ↦ rw (l, check_item) (λ h. cc)
    | inr l ↦ elim (Operator-cases (item ex.comps)) [
      | inr t ↦ rw (l, check_item) (rw t (λ h. cc))
      | inl (t, o) ↦ elim (Bool-cases (is_field source (item ex.fields))) [
        | inr f ↦ rw (l, check_item) (rw (t, f) (λ h. cc))
        | inl f ↦
            rw (l, check_item)
              (rw (t, f) (λ h. (cc, record { no_list = l; operator = o; field = f })))
      ]
    ]
  ]

  IsItemException-check_item :
      (source : Option FalcoSource) (ex : RuleExceptionInfo)
      → IsItemException source ex
      → check_item supported_operators source ex ≡ valid ex
  unfolding check_item
  IsItemException-check_item source ex h =
      rw (h.no_list, check_item) (rw (operator-tests (item ex.comps) h.operator, h.field) refl)

  validate-completed :
      (source : Option FalcoSource) (ex ex' : RuleExceptionInfo)
      → (validate_exception_info supported_operators source ex ≡ valid ex')
        ↔ (ex' ≡ completed supported_operators ex) × IsException source ex'
  unfolding validate_exception_info
  validate-completed source ex ex' = elim (Bool-cases (is_list ex.fields)) [
    | inl l ↦
        let new : RuleExceptionInfo = record ex { comps = list_comps supported_operators ex } in
        rw (l, validate_exception_info)
          (
            λ h.
                let (e, p) = check_comps-valid source new ex' h in
                (e, inl (rw e l, subst (IsListException source) (sym e) p)),
            λ (e, p). elim p [
              | inl (_, q) ↦
                  IsListException-check_comps source new (subst (IsListException source) e q)
                  ∙ ap valid (sym e)
              | inr (m, _) ↦ absurd (true≢false (sym l ∙ sym (ap (λ x. is_list x.fields) e) ∙ m))
            ],
          )
    | inr l ↦
        let new : RuleExceptionInfo = record ex { comps = item_comps supported_operators ex } in
        rw (l, validate_exception_info)
          (
            λ h.
                let (e, p) = check_item-valid source new ex' h in
                (e, inr (rw e l, subst (IsItemException source) (sym e) p)),
            λ (e, p). elim p [
              | inr (_, q) ↦
                  IsItemException-check_item source new (subst (IsItemException source) e q)
                  ∙ ap valid (sym e)
              | inl (m, _) ↦ absurd (true≢false (sym m ∙ ap (λ x. is_list x.fields) e ∙ l))
            ],
          )
  ]

  -- The validation gives a result exactly if valid comps are kept in it, and others are filled in, and
  -- if it is well formed then.
  pub validate_exception_info_iff :
      (source : Option FalcoSource) (ex ex' : RuleExceptionInfo)
      → (validate_exception_info supported_operators source ex ≡ valid ex')
        ↔ IsCompleted supported_operators ex ex' × IsException source ex'
  validate_exception_info_iff source ex ex' =
      let (to, from) = validate-completed source ex ex' in
      (
        λ h.
            let (e, p) = to h in
            (
              subst (IsCompleted supported_operators ex) (sym e)
                  (completed-IsCompleted supported_operators ex),
              p,
            ),
        λ (c, p). from (
          IsCompleted-unique supported_operators ex ex' (completed supported_operators ex) c
              (completed-IsCompleted supported_operators ex),
          p,
        ),
      )
