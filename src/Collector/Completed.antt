-- ===== src/Collector/Completed.antt =====
-- userspace/engine/rule_loader_collector.cpp: the comps that the validation of an exception fills in.
use falco.Prelude.{
  String, ◌≡◌, refl, sym, ap, ◌∙◌, ◌⊎◌, inl, inr, true, false, List, [], ◌∷◌, ◌++◌, map,
  if◌then◌else◌, Bool-cases, nat_eq, string_eq, list_eq, length, replicate,
}
use mathlib.Core.Bool.{true≢false}
use falco.LoadInfo.{Entry, to_entries, is_list, item, items, entry, item_entry}
use falco.RuleInfo.{RuleExceptionInfo, is_valid}
use falco.Collector.Exceptions.{list_comps, item_comps}

map-replicate :
    (text : String) (es : List Entry)
    → map (λ e. item_entry text) es ≡ replicate (length es) (item_entry text)
map-replicate text [] = refl
map-replicate text (e ∷ es) = ap (λ r. item_entry text ∷ r) (map-replicate text es)

module _ (supported_operators : List String) where
  -- The exception with the comps that the code gives it.
  abbrev pub completed : RuleExceptionInfo → RuleExceptionInfo
  completed ex = record ex {
    comps =
        if is_list ex.fields
        then list_comps supported_operators ex
        else item_comps supported_operators ex;
  }

  -- Valid comps are kept. Others become, for a list of fields, a list with an "=" for each field behind
  -- what they hold, and for a single field the text "in".
  abbrev pub IsCompleted : RuleExceptionInfo → RuleExceptionInfo → Type 0
  IsCompleted ex ex' =
      (is_valid ex.comps ≡ true) × (ex' ≡ ex)
      ⊎ (is_valid ex.comps ≡ false)
        × (is_list ex.fields ≡ true)
        × (ex' ≡ record ex {
          comps = entry true (item ex.comps) (
              to_entries (items ex.comps ++ replicate (length (items ex.fields)) (item_entry "=")));
        })
      ⊎ (is_valid ex.comps ≡ false)
        × (is_list ex.fields ≡ false)
        × (ex' ≡ record ex { comps = entry false "in" (to_entries (items ex.comps)) })

  pub completed-IsCompleted : (ex : RuleExceptionInfo) → IsCompleted ex (completed ex)
  unfolding list_comps item_comps
  completed-IsCompleted ex = elim (Bool-cases (is_valid ex.comps)) [
    | inl v ↦ elim (Bool-cases (is_list ex.fields)) [
      | inl l ↦ inl (v, rw (l, list_comps) (rw v refl))
      | inr l ↦ inl (v, rw (l, item_comps) (rw v refl))
    ]
    | inr v ↦ elim (Bool-cases (is_list ex.fields)) [
      | inl l ↦
          inr (inl (v, l, rw (l, list_comps) (rw (v, map-replicate "=" (items ex.fields)) refl)))
      | inr l ↦ inr (inr (v, l, rw (l, item_comps) (rw v refl)))
    ]
  ]

  pub IsCompleted-unique :
      (ex a b : RuleExceptionInfo) → IsCompleted ex a → IsCompleted ex b → a ≡ b
  IsCompleted-unique ex a b (inl (v, e)) (inl (w, f)) = e ∙ sym f
  IsCompleted-unique ex a b (inl (v, e)) (inr (inl (w, m, f))) = absurd (true≢false (sym v ∙ w))
  IsCompleted-unique ex a b (inl (v, e)) (inr (inr (w, m, f))) = absurd (true≢false (sym v ∙ w))
  IsCompleted-unique ex a b (inr (inl (v, l, e))) (inl (w, f)) = absurd (true≢false (sym w ∙ v))
  IsCompleted-unique ex a b (inr (inl (v, l, e))) (inr (inl (w, m, f))) = e ∙ sym f
  IsCompleted-unique ex a b (inr (inl (v, l, e))) (inr (inr (w, m, f))) =
      absurd (true≢false (sym l ∙ m))
  IsCompleted-unique ex a b (inr (inr (v, l, e))) (inl (w, f)) = absurd (true≢false (sym w ∙ v))
  IsCompleted-unique ex a b (inr (inr (v, l, e))) (inr (inl (w, m, f))) =
      absurd (true≢false (sym m ∙ l))
  IsCompleted-unique ex a b (inr (inr (v, l, e))) (inr (inr (w, m, f))) = e ∙ sym f
