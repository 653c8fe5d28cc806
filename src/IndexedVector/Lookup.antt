-- ===== src/IndexedVector/Lookup.antt =====
-- What `insert` and `update` do to the elements that `at` finds.
use falco.Prelude.{
  ℕ, String, ◌≡◌, refl, none, some, [], ◌∷◌, ◌==◌, string_eq, if◌then◌else◌, length, Option-cases,
  inl, inr, get_elem?, get_elem?-set_self, get_elem?-set_ne, get_elem?-append_lt,
  get_elem?-append_end, set, sym, ◌∙◌, subst, ==_cases,
}
use mathlib.Core.Option.{none-ne-some}
use falco.IndexedVector.{IndexedVector, empty_vector, find, assign, insert, update, at}
use falco.IndexedVector.Invariant.{IsValid, find-assign}

module _ {ℓ} {T : Type ℓ} where
  at_known :
      (j : String) (v : IndexedVector T) (i : ℕ)
      → find j v.m_index ≡ some i
      → at j v ≡ get_elem? v.m_entries i
  unfolding at
  at_known j v i e = rw (e, at)

  at_unknown : (j : String) (v : IndexedVector T) → find j v.m_index ≡ none → at j v ≡ none
  unfolding at
  at_unknown j v e = rw (e, at)

  -- Writing the element of one name leaves those of the others.
  at-set :
      (entry : T) (index j : String) (v : IndexedVector T) (id : ℕ)
      → IsValid v
      → find index v.m_index ≡ some id
      → at j (record v { m_entries = set v.m_entries id entry })
        ≡ (if j == index then some entry else at j v)
  unfolding at
  at-set entry index j v id h e = elim (==_cases j index) [
    | inl (t, p) ↦
        let q : find j v.m_index ≡ some id = rw p e in
        rw (q, at) (rw t (get_elem?-set_self v.m_entries id entry (h.in_range index id e)))
    | inr (t, p) ↦ elim (Option-cases (find j v.m_index)) [
      | inl q ↦ rw (q, at) (rw t)
      | inr (i, q) ↦
          rw (q, at)
            (rw t (
              get_elem?-set_ne v.m_entries id i entry
                (λ r. p (h.unique j index i q (subst (λ n. find index v.m_index ≡ some n) r e)))))
    ]
  ]

  -- After `insert`, the name gives the new element and every other name what it gave before.
  pub at-insert :
      (entry : T) (index j : String) (v : IndexedVector T)
      → IsValid v
      → at j (insert entry index v).0 ≡ (if j == index then some entry else at j v)
  unfolding insert
  at-insert entry index j v h = elim (Option-cases (find index v.m_index)) [
    | inr (id, e) ↦ rw (e, insert) (at-set entry index j v id h e)
    | inl e ↦
        rw (e, insert)
          (elim (==_cases j index) [
            | inl (t, p) ↦
                let q : find j (assign index (length v.m_entries) v.m_index)
                    ≡ some (length v.m_entries) =
                  rw (find-assign, t) refl in
                at_known j _ (length v.m_entries) q ∙ rw t (get_elem?-append_end v.m_entries entry)
            | inr (t, p) ↦
                let q : find j (assign index (length v.m_entries) v.m_index) ≡ find j v.m_index =
                  rw (find-assign, t) refl in
                elim (Option-cases (find j v.m_index)) [
                  | inl r ↦ at_unknown j _ (q ∙ r) ∙ rw t (sym (at_unknown j v r))
                  | inr (i, r) ↦
                      at_known j _ i (q ∙ r)
                      ∙ rw t (
                          get_elem?-append_lt v.m_entries (entry ∷ []) i (h.in_range j i r)
                          ∙ sym (at_known j v i r))
                ]
          ])
  ]

  -- Writing through the pointer of a known name changes that element alone; an unknown name is a
  -- null pointer, and nothing changes.
  pub at-update :
      (entry : T) (index j : String) (v : IndexedVector T) {old : T}
      → IsValid v
      → at index v ≡ some old
      → at j (update index entry v) ≡ (if j == index then some entry else at j v)
  unfolding update
  at-update entry index j v {old} h e = elim (Option-cases (find index v.m_index)) [
    | inl q ↦ absurd (none-ne-some old (sym (at_unknown index v q) ∙ e))
    | inr (id, q) ↦ rw (q, update) (at-set entry index j v id h q)
  ]

  pub at-empty_vector : (j : String) → at j (empty_vector {T = T}) ≡ none
  unfolding at find
  at-empty_vector j = refl
