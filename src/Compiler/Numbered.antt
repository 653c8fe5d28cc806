-- ===== src/Compiler/Numbered.antt =====
-- userspace/engine/rule_loader_compiler.cpp: the compiled rules stand under their own names, and
-- their ids are their positions.
use falco.Prelude.{
  ℕ, String, ◌≡◌, refl, sym, ap, ◌∙◌, subst, ◌≢◌, inl, inr, some, [], ◌∷◌, arith, ℕ_discrete,
  Option-cases, nat_eq, string_eq, list_eq, get_elem?, set, length-append, get_elem?-set_self,
  get_elem?-set_ne, get_elem?-append_lt, get_elem?-append_end, get_elem?-eq_some,
}
use mathlib.Core.Option.{none-ne-some, some_inj}
use falco.IndexedVector.{IndexedVector, insert, find, empty_vector}
use falco.IndexedVector.Numbers.{IsNamed, insert-IsNamed, set-IsNamed, empty_vector-IsNamed}
use falco.Rule.{FalcoRule}
use falco.Compiler.Lists.{insert_with_id}

abbrev pub rule_name : FalcoRule → String
rule_name r = r.name

abbrev pub set_rule_id : ℕ → FalcoRule → FalcoRule
set_rule_id i r = record r { id = i }

pub record IsNumbered (v : IndexedVector FalcoRule) : Type 0 where
  pub named : IsNamed rule_name v
  pub ids : (i : ℕ) (r : FalcoRule) → get_elem? v.m_entries i ≡ some r → r.id ≡ i

pub empty_vector-IsNumbered : IsNumbered empty_vector
empty_vector-IsNumbered = record {
  named = empty_vector-IsNamed rule_name;
  ids = λ i r e. absurd (none-ne-some r e);
}

-- The number that an insertion gives is the element's position.
at_id-insert {ℓ} :
    {T : Type ℓ} (name : T → String) (t : T) (k : String) (v : IndexedVector T)
    → IsNamed name v
    → get_elem? (insert t k v).0.m_entries (insert t k v).1 ≡ some t
unfolding insert
at_id-insert name t k v h = elim (Option-cases (find k v.m_index)) [
  | inl e ↦ rw (e, insert) (get_elem?-append_end v.m_entries t)
  | inr (id, e) ↦ rw (e, insert) (get_elem?-set_self v.m_entries id t (h.valid.in_range k id e))
]

-- Elsewhere an insertion changes nothing.
at_id-insert_ne {ℓ} :
    {T : Type ℓ} (t : T) (k : String) (v : IndexedVector T) (i : ℕ) (u : T)
    → i ≢ (insert t k v).1
    → get_elem? (insert t k v).0.m_entries i ≡ some u
    → get_elem? v.m_entries i ≡ some u
unfolding insert
at_id-insert_ne t k v i u = elim (Option-cases (find k v.m_index)) [
  | inl e ↦
      rw (e, insert)
        (λ n h.
          sym (
            get_elem?-append_lt v.m_entries (t ∷ []) i
              (omega (arith, n, get_elem?-eq_some _ i u h, length-append v.m_entries (t ∷ []))))
          ∙ h)
  | inr (id, e) ↦
      rw (e, insert) (λ n h. sym (get_elem?-set_ne v.m_entries id i t (λ q. n (sym q))) ∙ h)
]

pub insert_with_id-IsNumbered :
    (r : FalcoRule) (v : IndexedVector FalcoRule)
    → IsNumbered v
    → IsNumbered (insert_with_id set_rule_id r r.name v)
unfolding insert_with_id
insert_with_id-IsNumbered r v h =
    let (v', id) = insert r r.name v in
    let there = at_id-insert rule_name r r.name v h.named in
    rw (there, insert_with_id)
      (record {
        named =
            set-IsNamed rule_name id r (set_rule_id id r) v' (insert-IsNamed rule_name r v h.named)
              there refl;
        ids = λ i s e. elim (ℕ_discrete i id) [
          | yes p ↦
              let here =
                get_elem?-set_self v'.m_entries id (set_rule_id id r)
                  (get_elem?-eq_some v'.m_entries id r there) in
              let same : some (set_rule_id id r) ≡ some s =
                sym here
                ∙ subst (λ j. get_elem? (set v'.m_entries id (set_rule_id id r)) j ≡ some s) p e in
              ap (λ (x : FalcoRule). x.id) (sym (some_inj.0 same)) ∙ sym p
          | no p ↦ h.ids i s (
              at_id-insert_ne r r.name v i s p
                (sym (get_elem?-set_ne v'.m_entries id i (set_rule_id id r) (λ q. p (sym q))) ∙ e))
        ];
      })
