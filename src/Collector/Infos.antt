-- ===== src/Collector/Infos.antt =====
-- userspace/engine/rule_loader_collector.cpp: what defining and changing an info does to the others.
use falco.Prelude.{
  ℕ, ◌+◌, ◌≤◌, ◌<◌, String, ◌≡◌, refl, sym, ◌∙◌, subst, ◌≢◌, inl, inr, Option, none, some, arith,
  if◌then◌else◌, Option-cases, ◌==◌, ==_cases, nat_eq, string_eq, list_eq,
}
use mathlib.Core.Option.{none-ne-some, some_inj}
use falco.IndexedVector.{IndexedVector, empty_vector, at, update}
use falco.IndexedVector.Invariant.{IsValid, empty_vector-IsValid, insert-IsValid, update-IsValid}
use falco.IndexedVector.Lookup.{at-empty_vector, at-insert, at-update}
use falco.Collector.{Info, define_info}

module _ {T : Type 0} ⦃info : Info T⦄ where
  -- The index of the info that has the name, or a new one.
  abbrev pub index_or : Option T → ℕ → ℕ
  index_or none id = id
  index_or (some prev) id = info.index prev

  pub at-define_info :
      (infos : IndexedVector T) (t : T) (id : ℕ) (j : String)
      → IsValid infos
      → at j (define_info infos t id) ≡ (
          if j == info.name t
          then some (info.set_index (index_or (at (info.name t) infos) id) id t)
          else at j infos)
  unfolding define_info
  at-define_info infos t id j h = elim (Option-cases (at (info.name t) infos)) [
    | inl e ↦ rw (e, define_info) (at-insert (info.set_index id id t) (info.name t) j infos h)
    | inr (prev, e) ↦
        rw (e, define_info)
          (at-update (info.set_index (info.index prev) id t) (info.name t) j infos h e)
  ]

  pub define_info-IsValid :
      (infos : IndexedVector T) (t : T) (id : ℕ) → IsValid infos → IsValid (define_info infos t id)
  unfolding define_info
  define_info-IsValid infos t id h = elim (Option-cases (at (info.name t) infos)) [
    | inl e ↦ rw (e, define_info) (insert-IsValid _ _ infos h)
    | inr (prev, e) ↦ rw (e, define_info) (update-IsValid _ _ infos h)
  ]

  -- The infos of one kind, when the next number is `cur`: they stand under their names, were seen
  -- first at `index` and last at `visibility`, which `cur` has passed, and no two were seen first at
  -- the same number.
  pub record IsTracked (infos : IndexedVector T) (cur : ℕ) : Type 0 where
    pub valid : IsValid infos
    pub named : (k : String) (t : T) → at k infos ≡ some t → info.name t ≡ k
    pub ordered : (k : String) (t : T) → at k infos ≡ some t → info.index t ≤ info.visibility t
    pub passed : (k : String) (t : T) → at k infos ≡ some t → info.visibility t < cur
    pub distinct :
        (j k : String) (s t : T)
        → at j infos ≡ some s
        → at k infos ≡ some t
        → info.index s ≡ info.index t
        → j ≡ k

  -- What is found after the info of one name was written.
  abbrev IsWritten : (String → Option T) → (String → Option T) → String → T → Type 0
  IsWritten after before k t = (j : String) → after j ≡ (if j == k then some t else before j)

  -- A property of the written info and of those before holds of those after.
  each-written :
      (P : String → T → Type 0) (after before : String → Option T) (k : String) (t : T)
      → IsWritten after before k t
      → P k t
      → ((j : String) (s : T) → j ≢ k → before j ≡ some s → P j s)
      → (j : String) (s : T) → after j ≡ some s
      → P j s
  each-written P after before k t w p b j s e = elim (==_cases j k) [
    | inl (q, r) ↦
        let u : some t ≡ some s = sym (w j ∙ rw q refl) ∙ e in
        subst (λ i. P i s) (sym r) (subst (P k) (some_inj.0 u) p)
    | inr (q, r) ↦ b j s r (sym (w j ∙ rw q refl) ∙ e)
  ]

  written-IsTracked :
      (infos after : IndexedVector T) (cur cur' : ℕ) (k : String) (t : T)
      → IsTracked infos cur
      → IsValid after
      → IsWritten (λ j. at j after) (λ j. at j infos) k t
      → info.name t ≡ k
      → info.index t ≤ info.visibility t
      → info.visibility t < cur'
      → cur ≤ cur'
      → ((j : String) (s : T) → at j infos ≡ some s → info.index s ≡ info.index t → j ≡ k)
      → IsTracked after cur'
  written-IsTracked infos after cur cur' k t h v w n o p c d =
      let each : (P : String → T → Type 0)
          → P k t
          → ((j : String) (s : T) → j ≢ k → at j infos ≡ some s → P j s)
          → (j : String) (s : T) → at j after ≡ some s
          → P j s =
        λ P. each-written P (λ j. at j after) (λ j. at j infos) k t w in
      record {
        valid = v;
        named = each (λ j s. info.name s ≡ j) n (λ j s r. h.named j s);
        ordered = each (λ j s. info.index s ≤ info.visibility s) o (λ j s r. h.ordered j s);
        passed =
            each (λ j s. info.visibility s < cur') p (λ j s r e. omega (arith, h.passed j s e));
        distinct = λ i j r s e f.
            each (λ i r. info.index r ≡ info.index s → i ≡ j)
              (each (λ j s. info.index t ≡ info.index s → k ≡ j) (λ q. refl)
                (λ j s r e q. sym (d j s e (sym q))) j s f)
              (λ i r q g.
                each (λ j s. info.index r ≡ info.index s → i ≡ j) (λ u. d i r g u)
                  (λ j s q' f. h.distinct i j r s g f) j s f)
              i r e;
      }

  index_or-le :
      (infos : IndexedVector T) (cur : ℕ) (k : String)
      → IsTracked infos cur
      → index_or (at k infos) cur ≤ cur
  index_or-le infos cur k h = elim (Option-cases (at k infos)) [
    | inl e ↦ rw e (omega arith)
    | inr (t, e) ↦ rw e (omega (arith, h.ordered k t e, h.passed k t e))
  ]

  index_or-distinct :
      (infos : IndexedVector T) (cur : ℕ) (k : String)
      → IsTracked infos cur
      → (j : String) (s : T) → at j infos ≡ some s
      → info.index s ≡ index_or (at k infos) cur
      → j ≡ k
  index_or-distinct infos cur k h j s f = elim (Option-cases (at k infos)) [
    | inl e ↦ rw e (λ q. absurd (omega (arith, h.ordered j s f, h.passed j s f, q)))
    | inr (t, e) ↦ rw e (λ q. h.distinct j k s t f e q)
  ]

  pub define_info-IsTracked :
      (infos : IndexedVector T) (t : T) (cur : ℕ)
      → IsTracked infos cur
      → IsTracked (define_info infos t cur) (cur + 1)
  define_info-IsTracked infos t cur h =
      let first = index_or (at (info.name t) infos) cur in
      let new = info.set_index first cur t in
      let w : IsWritten (λ j. at j (define_info infos t cur)) (λ j. at j infos) (info.name t) new =
        λ j. at-define_info infos t cur j h.valid in
      written-IsTracked infos (define_info infos t cur) cur (cur + 1) (info.name t) new h
        (define_info-IsValid infos t cur h.valid) w (info.name_set first cur t)
        (rw (info.index_set first cur t, info.visibility_set first cur t)
          (index_or-le infos cur (info.name t) h))
        (rw (info.visibility_set first cur t) (omega arith)) (omega arith)
        (λ j s e.
          rw (info.index_set first cur t) (index_or-distinct infos cur (info.name t) h j s e))

  -- Changing an info found under its name, which keeps its index.
  pub update-IsTracked :
      (infos : IndexedVector T) (k : String) (prev t : T) (cur cur' : ℕ)
      → IsTracked infos cur
      → at k infos ≡ some prev
      → info.name t ≡ info.name prev
      → info.index t ≡ info.index prev
      → info.visibility prev ≤ info.visibility t
      → info.visibility t < cur'
      → cur ≤ cur'
      → IsTracked (update k t infos) cur'
  update-IsTracked infos k prev t cur cur' h e n i o p c =
      written-IsTracked infos (update k t infos) cur cur' k t h (update-IsValid k t infos h.valid)
        (λ j. at-update t k j infos h.valid e) (n ∙ h.named k prev e)
        (omega (arith, h.ordered k prev e)) p c (λ j s f q. h.distinct j k s prev f e (q ∙ i))

  pub weaken-IsTracked :
      (infos : IndexedVector T) (cur : ℕ) → IsTracked infos cur → IsTracked infos (cur + 1)
  weaken-IsTracked infos cur h = record {
    valid = h.valid;
    named = h.named;
    ordered = h.ordered;
    passed = λ k t e. omega (arith, h.passed k t e);
    distinct = h.distinct;
  }

  nothing {ℓ} : {P : Type ℓ} (k : String) (t : T) → at k (empty_vector {T = T}) ≡ some t → P
  nothing k t e = absurd (none-ne-some t (sym (at-empty_vector k) ∙ e))

  pub empty-IsTracked : IsTracked empty_vector 0
  empty-IsTracked = record {
    valid = empty_vector-IsValid;
    named = λ k t e. nothing k t e;
    ordered = λ k t e. nothing k t e;
    passed = λ k t e. nothing k t e;
    distinct = λ j k s t e. nothing j s e;
  }
