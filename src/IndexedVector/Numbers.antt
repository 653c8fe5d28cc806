-- ===== src/IndexedVector/Numbers.antt =====
-- userspace/engine/indexed_vector.h: vectors whose elements stand under their own names.
use falco.Prelude.{
  ℕ, zero, suc, String, ◌≡◌, refl, sym, ap, ◌∙◌, subst, ◌⊎◌, inl, inr, some, List, [], ◌∷◌, ◌++◌,
  arith, Option-cases, ==_self, ==_ne, nat_eq, string_eq, list_eq, length, get_elem?, set,
  length-set,
}
use mathlib.Core.Option.{none-ne-some, some_inj}
use falco.IndexedVector.{IndexedVector, find, empty_vector, insert}
use falco.IndexedVector.Invariant.{IsValid, find-assign, empty_vector-IsValid, insert-IsValid}

module _ {ℓ} {T : Type ℓ} (name : T → String) where
  -- Each element stands under its own name, so no two have the same one.
  pub record IsNamed (v : IndexedVector T) : Type ℓ where
    pub valid : IsValid v
    pub position :
        (i : ℕ) (t : T) → get_elem? v.m_entries i ≡ some t → find (name t) v.m_index ≡ some i

  pub empty_vector-IsNamed : IsNamed empty_vector
  empty_vector-IsNamed = record {
    valid = empty_vector-IsValid;
    position = λ i t e. absurd (none-ne-some t e);
  }

  -- The position of an element of a list, behind those of another.
  get_elem?-append_cases :
      (xs : List T) (x : T) (i : ℕ) (t : T)
      → get_elem? (xs ++ x ∷ []) i ≡ some t
      → (get_elem? xs i ≡ some t) ⊎ ((i ≡ length xs) × (x ≡ t))
  get_elem?-append_cases [] x zero t h = inr (refl, some_inj.0 h)
  get_elem?-append_cases [] x (suc i) t h = absurd (none-ne-some t h)
  get_elem?-append_cases (y ∷ xs) x zero t h = inl h
  get_elem?-append_cases (y ∷ xs) x (suc i) t h = elim (get_elem?-append_cases xs x i t h) [
    | inl e ↦ inl e
    | inr (e, p) ↦ inr (ap suc e, p)
  ]

  get_elem?-set_cases :
      (xs : List T) (k : ℕ) (x : T) (i : ℕ) (t : T)
      → get_elem? (set xs k x) i ≡ some t
      → (get_elem? xs i ≡ some t) ⊎ ((i ≡ k) × (x ≡ t))
  get_elem?-set_cases [] k x i t h = inl h
  get_elem?-set_cases (y ∷ xs) zero x zero t h = inr (refl, some_inj.0 h)
  get_elem?-set_cases (y ∷ xs) zero x (suc i) t h = inl h
  get_elem?-set_cases (y ∷ xs) (suc k) x zero t h = inl h
  get_elem?-set_cases (y ∷ xs) (suc k) x (suc i) t h = elim (get_elem?-set_cases xs k x i t h) [
    | inl e ↦ inl e
    | inr (e, p) ↦ inr (ap suc e, p)
  ]

  -- Inserting an element under its own name.
  pub insert-IsNamed : (t : T) (v : IndexedVector T) → IsNamed v → IsNamed (insert t (name t) v).0
  unfolding insert
  insert-IsNamed t v h = record {
    valid = insert-IsValid t (name t) v h.valid;
    position = λ i s. elim (Option-cases (find (name t) v.m_index)) [
      | inl e ↦
          rw (e, insert)
            (λ q. elim (get_elem?-append_cases v.m_entries t i s q) [
              | inl r ↦
                  let k = h.position i s r in
                  find-assign (name t) (name s) (length v.m_entries) v.m_index
                  ∙ rw
                      (==_ne (name s) (name t)
                        (λ p. none-ne-some i (sym e ∙ sym (ap (λ j. find j v.m_index) p) ∙ k)))
                      k
              | inr (p, r) ↦
                  find-assign (name t) (name s) (length v.m_entries) v.m_index
                  ∙ rw (r, ==_self (name s)) (ap some (sym p))
            ])
      | inr (id, e) ↦
          rw (e, insert)
            (λ q. elim (get_elem?-set_cases v.m_entries id t i s q) [
              | inl r ↦ h.position i s r
              | inr (p, r) ↦ rw (sym r, p) e
            ])
    ];
  }

  -- A vector with the same index, whose elements have the same names, is as well named.
  pub set-IsNamed :
      (id : ℕ) (old t : T) (v : IndexedVector T)
      → IsNamed v
      → get_elem? v.m_entries id ≡ some old
      → name t ≡ name old
      → IsNamed (record v { m_entries = set v.m_entries id t })
  set-IsNamed id old t v h g n = record {
    valid = record {
      in_range = λ k i p. omega (arith, length-set v.m_entries id t, h.valid.in_range k i p);
      unique = h.valid.unique;
    };
    position = λ i s q. elim (get_elem?-set_cases v.m_entries id t i s q) [
      | inl r ↦ h.position i s r
      | inr (p, r) ↦
          subst (λ k. find k v.m_index ≡ some i) (sym n ∙ ap name r) (rw p (h.position id old g))
    ];
  }
