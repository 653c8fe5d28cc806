-- ===== src/Ruleset/Indexed.antt =====
-- The index of a ruleset by event types holds exactly the enabled filters.
use falco.Prelude.{
  ℕ, zero, suc, ◌+◌, ◌≤◌, ◌<◌, ◌≡◌, refl, ◌∙◌, inl, inr, true, false, not, ◌&&◌, ◌||◌, List, [],
  ◌∷◌, arith, ltb, leb, if◌then◌else◌, ltb→lt, Bool-cases, ◌==◌, ==_self, ==_cases, nat_eq,
  string_eq, list_eq, contains, contains-append, length, set, contains-insert_sorted, IsNodup,
  contains-erase, erase-IsNodup, append-IsNodup, IsIncreasing, insert_sorted-IsIncreasing,
  erase-IsIncreasing, IsIncreasing-IsNodup,
}
use falco.Ruleset.{
  Wrapper, Pointer, RulesetFilters, new_ruleset_filters, entry, add_filter, remove_filter, resize,
  add_wrapper_to_list, remove_wrapper_from_list, add_by_type, add_by_types, remove_by_type,
  remove_by_types, is_empty,
}

-- Adding to a list that has no element twice, and removing from it.
pub contains-add_wrapper_to_list :
    (l : List Pointer) (p q : Pointer)
    → contains (add_wrapper_to_list l p) q ≡ (q == p || contains l q)
unfolding add_wrapper_to_list
contains-add_wrapper_to_list l p q = ground (arith, contains-append l (p ∷ []) q)

pub add_wrapper_to_list-IsNodup :
    (l : List Pointer) (p : Pointer) → IsNodup l → IsNodup (add_wrapper_to_list l p)
unfolding add_wrapper_to_list
add_wrapper_to_list-IsNodup l p h = elim (Bool-cases (contains l p)) [
  | inl t ↦ rw t h
  | inr t ↦ rw t (append-IsNodup l p h t)
]

pub contains-remove_wrapper_from_list :
    (l : List Pointer) (p q : Pointer)
    → IsNodup l
    → contains (remove_wrapper_from_list l p) q ≡ (not (q == p) && contains l q)
unfolding remove_wrapper_from_list
contains-remove_wrapper_from_list l p q h = ground (arith, contains-erase p q l h)

pub remove_wrapper_from_list-IsNodup :
    (l : List Pointer) (p : Pointer) → IsNodup l → IsNodup (remove_wrapper_from_list l p)
unfolding remove_wrapper_from_list
remove_wrapper_from_list-IsNodup l p h = elim (Bool-cases (contains l p)) [
  | inl t ↦ rw t (erase-IsNodup p l h)
  | inr t ↦ rw t h
]

entry-resize : (n : ℕ) (v : List (List Pointer)) (i : ℕ) → entry (resize n v) i ≡ entry v i
unfolding resize
entry-resize zero v i = refl
entry-resize (suc n) [] zero = refl
entry-resize (suc n) [] (suc i) = entry-resize n [] i
entry-resize (suc n) (l ∷ v) zero = refl
entry-resize (suc n) (l ∷ v) (suc i) = entry-resize n v i

length-resize : (n : ℕ) (v : List (List Pointer)) → n ≤ length (resize n v)
unfolding resize
length-resize zero v = omega arith
length-resize (suc n) [] = omega (arith, length-resize n [])
length-resize (suc n) (l ∷ v) = omega (arith, length-resize n v)

entry-set :
    (v : List (List Pointer)) (i j : ℕ) (l : List Pointer)
    → i < length v
    → entry (set v i l) j ≡ (if j == i then l else entry v j)
entry-set [] i j l h = elim h [ ]
entry-set (x ∷ v) zero zero l h = rw (==_self {A = ℕ} 0) refl
entry-set (x ∷ v) zero (suc j) l h = ground arith
entry-set (x ∷ v) (suc i) zero l h = ground arith
entry-set (x ∷ v) (suc i) (suc j) l h = ground (arith, entry-set v i j l)

pub entry-past : (v : List (List Pointer)) (i : ℕ) → length v ≤ i → entry v i ≡ []
entry-past [] i h = refl
entry-past (l ∷ v) zero h = absurd (omega arith)
entry-past (l ∷ v) (suc i) h = entry-past v i (omega arith)

-- Changing the list of one type, by what stood there.
entry-change :
    (v : List (List Pointer)) (i etype : ℕ) (f : List Pointer → List Pointer)
    → (if i == etype then f (entry v etype) else entry v i)
      ≡ (if i == etype then f (entry v i) else entry v i)
entry-change v i etype f = elim (==_cases i etype) [
  | inl (u, e) ↦ rw (u, e) refl
  | inr (u, e) ↦ rw u refl
]

-- Each list of the vector has no element twice.
abbrev AllNodup : List (List Pointer) → Type 0
AllNodup v = (i : ℕ) → IsNodup (entry v i)

entry-add_by_type :
    (p : Pointer) (etype : ℕ) (v : List (List Pointer)) (i : ℕ)
    → entry (add_by_type p etype v) i
      ≡ (if i == etype then add_wrapper_to_list (entry v i) p else entry v i)
unfolding add_by_type
entry-add_by_type p etype v i = elim (Bool-cases (leb (length v) etype)) [
  | inl t ↦
      rw (t, add_by_type)
        (entry-set (resize (etype + 1) v) etype i _ (omega (arith, length-resize (etype + 1) v))
          ∙ rw (entry-resize (etype + 1) v etype, entry-resize (etype + 1) v i)
              (entry-change v i etype (λ l. add_wrapper_to_list l p)))
  | inr t ↦
      rw (t, add_by_type)
        (entry-set v etype i _ (ground arith)
          ∙ entry-change v i etype (λ l. add_wrapper_to_list l p))
]

-- Adding in a loop over the codes adds to the list of each code, once.
contains-add_by_types :
    (p : Pointer) (codes : List ℕ) (v : List (List Pointer)) (i : ℕ) (q : Pointer)
    → contains (entry (add_by_types p codes v) i) q
      ≡ (q == p && contains codes i || contains (entry v i) q)
unfolding add_by_types
contains-add_by_types p [] v i q = ground arith
contains-add_by_types p (etype ∷ codes) v i q =
    contains-add_by_types p codes (add_by_type p etype v) i q
    ∙ rw entry-add_by_type (ground (arith, contains-add_wrapper_to_list (entry v i) p q))

add_by_types-AllNodup :
    (p : Pointer) (codes : List ℕ) (v : List (List Pointer))
    → AllNodup v
    → AllNodup (add_by_types p codes v)
unfolding add_by_types
add_by_types-AllNodup p [] v h = h
add_by_types-AllNodup p (etype ∷ codes) v h =
    add_by_types-AllNodup p codes (add_by_type p etype v) λ i.
      rw entry-add_by_type (elim (Bool-cases (i == etype)) [
        | inl t ↦ rw t (add_wrapper_to_list-IsNodup (entry v i) p (h i))
        | inr t ↦ rw t (h i)
      ])

remove-nil : (p : Pointer) → remove_wrapper_from_list [] p ≡ []
unfolding remove_wrapper_from_list
remove-nil p = refl

entry-remove_by_type :
    (p : Pointer) (etype : ℕ) (v : List (List Pointer)) (i : ℕ)
    → entry (remove_by_type p etype v) i
      ≡ (if i == etype then remove_wrapper_from_list (entry v i) p else entry v i)
unfolding remove_by_type
entry-remove_by_type p etype v i = elim (Bool-cases (ltb etype (length v))) [
  | inl t ↦
      rw (t, remove_by_type)
        (entry-set v etype i _ (ltb→lt etype (length v) t)
          ∙ entry-change v i etype (λ l. remove_wrapper_from_list l p))
  | inr t ↦
      rw (t, remove_by_type)
        (elim (==_cases i etype) [
          | inl (u, e) ↦
              let nothing : entry v i ≡ [] = entry-past v i (ground arith) in
              rw (u, nothing, remove-nil) refl
          | inr (u, e) ↦ rw u refl
        ])
]

remove_by_type-AllNodup :
    (p : Pointer) (etype : ℕ) (v : List (List Pointer))
    → AllNodup v
    → AllNodup (remove_by_type p etype v)
remove_by_type-AllNodup p etype v h i = rw entry-remove_by_type (elim (Bool-cases (i == etype)) [
  | inl t ↦ rw t (remove_wrapper_from_list-IsNodup (entry v i) p (h i))
  | inr t ↦ rw t (h i)
])

remove_by_types-AllNodup :
    (p : Pointer) (codes : List ℕ) (v : List (List Pointer))
    → AllNodup v
    → AllNodup (remove_by_types p codes v)
unfolding remove_by_types
remove_by_types-AllNodup p [] v h = h
remove_by_types-AllNodup p (etype ∷ codes) v h =
    remove_by_types-AllNodup p codes (remove_by_type p etype v)
      (remove_by_type-AllNodup p etype v h)

contains-remove_by_types :
    (p : Pointer) (codes : List ℕ) (v : List (List Pointer)) (i : ℕ) (q : Pointer)
    → AllNodup v
    → contains (entry (remove_by_types p codes v) i) q
      ≡ (not (q == p && contains codes i) && contains (entry v i) q)
unfolding remove_by_types
contains-remove_by_types p [] v i q h = ground arith
contains-remove_by_types p (etype ∷ codes) v i q h =
    contains-remove_by_types p codes (remove_by_type p etype v) i q
      (remove_by_type-AllNodup p etype v h)
    ∙ rw entry-remove_by_type
        (ground (arith, contains-remove_wrapper_from_list (entry v i) p q (h i)))

empty-contains : (codes : List ℕ) (etype : ℕ) → is_empty codes ≡ true → contains codes etype ≡ false
empty-contains [] etype h = refl
empty-contains (c ∷ codes) etype h = cc

-- The lists by event type and the list for all types hold the enabled filters, each once.
pub record IsIndexed {Event : Type 0} (deref : Pointer → Wrapper Event) (r : RulesetFilters)
    : Type 0 where
  pub by_type :
      (etype : ℕ) (q : Pointer)
      → contains (entry r.m_filter_by_event_type etype) q
        ≡ (contains r.m_filters q && contains (deref q).event_codes etype)
  pub all_types :
      (q : Pointer)
      → contains r.m_filter_all_event_types q
        ≡ (contains r.m_filters q && is_empty (deref q).event_codes)
  pub each_once : (etype : ℕ) → IsNodup (entry r.m_filter_by_event_type etype)
  pub all_once : IsNodup r.m_filter_all_event_types
  pub ordered : IsIncreasing r.m_filters

module _ {Event : Type 0} (deref : Pointer → Wrapper Event) where
  pub new-IsIndexed : (id : ℕ) → IsIndexed deref (new_ruleset_filters id)
  unfolding new_ruleset_filters
  new-IsIndexed id = record {
    by_type = λ etype q. refl;
    all_types = λ q. refl;
    each_once = λ etype. tt;
    all_once = tt;
    ordered = tt;
  }

  -- Enabling a filter enables it alone.
  pub m_filters-add_filter :
      (p q : Pointer) (r : RulesetFilters)
      → contains (add_filter deref p r).m_filters q ≡ (q == p || contains r.m_filters q)
  unfolding add_filter
  m_filters-add_filter p q r = ground (arith, contains-insert_sorted p q r.m_filters)

  pub m_filters-remove_filter :
      (p q : Pointer) (r : RulesetFilters)
      → IsIndexed deref r
      → contains (remove_filter deref p r).m_filters q ≡ (not (q == p) && contains r.m_filters q)
  unfolding remove_filter
  m_filters-remove_filter p q r h =
      ground (arith, contains-erase p q r.m_filters (IsIncreasing-IsNodup r.m_filters h.ordered))

  -- `add_filter` keeps the index equal to the set of enabled filters.
  pub add_filter-IsIndexed :
      (p : Pointer) (r : RulesetFilters)
      → IsIndexed deref r
      → IsIndexed deref (add_filter deref p r)
  unfolding add_filter
  add_filter-IsIndexed p r h =
      let codes : List ℕ = (deref p).event_codes in
      elim (Bool-cases (is_empty codes)) [
        | inl t ↦
            rw (t, add_filter)
              (record {
                by_type = λ etype q. ground (
                  arith,
                  h.by_type etype q,
                  contains-insert_sorted p q r.m_filters,
                  empty-contains codes etype t,
                );
                all_types = λ q. ground (
                  arith,
                  t,
                  h.all_types q,
                  contains-insert_sorted p q r.m_filters,
                  contains-add_wrapper_to_list r.m_filter_all_event_types p q,
                );
                each_once = h.each_once;
                all_once = add_wrapper_to_list-IsNodup r.m_filter_all_event_types p h.all_once;
                ordered = insert_sorted-IsIncreasing p r.m_filters h.ordered;
              })
        | inr t ↦
            rw (t, add_filter)
              (record {
                by_type = λ etype q. ground (
                  arith,
                  h.by_type etype q,
                  contains-insert_sorted p q r.m_filters,
                  contains-add_by_types p codes r.m_filter_by_event_type etype q,
                );
                all_types =
                    λ q. ground (arith, t, h.all_types q, contains-insert_sorted p q r.m_filters);
                each_once = add_by_types-AllNodup p codes r.m_filter_by_event_type h.each_once;
                all_once = h.all_once;
                ordered = insert_sorted-IsIncreasing p r.m_filters h.ordered;
              })
      ]

  -- `remove_filter` keeps it so too.
  pub remove_filter-IsIndexed :
      (p : Pointer) (r : RulesetFilters)
      → IsIndexed deref r
      → IsIndexed deref (remove_filter deref p r)
  unfolding remove_filter
  remove_filter-IsIndexed p r h =
      let codes : List ℕ = (deref p).event_codes in
      let once : IsNodup r.m_filters = IsIncreasing-IsNodup r.m_filters h.ordered in
      elim (Bool-cases (is_empty codes)) [
        | inl t ↦
            rw (t, remove_filter)
              (record {
                by_type = λ etype q. ground (
                  arith,
                  h.by_type etype q,
                  contains-erase p q r.m_filters once,
                  empty-contains codes etype t,
                );
                all_types = λ q. ground (
                  arith,
                  t,
                  h.all_types q,
                  contains-erase p q r.m_filters once,
                  contains-remove_wrapper_from_list r.m_filter_all_event_types p q h.all_once,
                );
                each_once = h.each_once;
                all_once = remove_wrapper_from_list-IsNodup r.m_filter_all_event_types p h.all_once;
                ordered = erase-IsIncreasing p r.m_filters h.ordered;
              })
        | inr t ↦
            rw (t, remove_filter)
              (record {
                by_type = λ etype q. ground (
                  arith,
                  h.by_type etype q,
                  contains-erase p q r.m_filters once,
                  contains-remove_by_types p codes r.m_filter_by_event_type etype q h.each_once,
                );
                all_types =
                    λ q. ground (arith, t, h.all_types q, contains-erase p q r.m_filters once);
                each_once = remove_by_types-AllNodup p codes r.m_filter_by_event_type h.each_once;
                all_once = h.all_once;
                ordered = erase-IsIncreasing p r.m_filters h.ordered;
              })
      ]
