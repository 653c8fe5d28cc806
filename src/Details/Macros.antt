-- ===== src/Details/Macros.antt =====
-- userspace/engine/filter_details_resolver.cpp: the macros of a filter are found.
use falco.Prelude.{
  String, ◌≡◌, refl, sym, ◌∙◌, subst, inl, inr, Bool, true, false, ◌&&◌, ◌||◌, List, [], ◌∷◌, arith,
  Bool-cases, ◌==◌, ==_cases, nat_eq, string_eq, list_eq, contains, contains-append,
}
use falco.Filter.{
  Expr, and_expr, or_expr, not_expr, identifier_expr, value_expr, list_expr, unary_check_expr,
  binary_check_expr, field_expr, field_transformer_expr, Exprs, end, child,
}
use falco.RuleInfo.{is_empty_text}
use falco.Details.{
  FilterDetails, DetailsVisitor, Resolving, visited, runtime_error, add_name, after_visit,
  visit_list, visit_identifier_expr, visit_value, visit_field, visit_transformer, start_binary,
  expect_right, end_binary, start_unary, end_unary, need_field, visit_expr, visit_exprs, run,
}

abbrev mutual
  -- Whether an identifier stands anywhere in a filter.
  pub mentions : Expr → String → Bool
  mentions (and_expr es) m = mentions_all es m
  mentions (or_expr es) m = mentions_all es m
  mentions (not_expr e) m = mentions e m
  mentions (identifier_expr identifier at) m = m == identifier
  mentions (value_expr value) m = false
  mentions (list_expr values) m = false
  mentions (unary_check_expr left op) m = mentions left m
  mentions (binary_check_expr left op right) m = mentions left m || mentions right m
  mentions (field_expr field arg) m = false
  mentions (field_transformer_expr transformer value) m = mentions value m

  pub mentions_all : Exprs → String → Bool
  mentions_all end m = false
  mentions_all (child e es) m = mentions e m || mentions_all es m

-- The known ones of some macros are added.
record Adds (f : String → Bool) (v w : DetailsVisitor) : Type 0 where
  same : w.m_details.known_macros ≡ v.m_details.known_macros
  added :
      (m : String)
      → contains w.m_details.macros m
        ≡ (contains v.m_details.macros m || (contains v.m_details.known_macros m && f m))

-- So they are where the visit throws nothing.
abbrev Finds : (String → Bool) → DetailsVisitor → Resolving → Type 0
Finds f v (visited w) = Adds f v w
Finds f v (runtime_error what w) = Unit {0}

or_assoc : (a k f g : Bool) → ((a || (k && f)) || (k && g)) ≡ (a || (k && (f || g)))
or_assoc a k f g = ground arith

Adds-trans :
    (f g : String → Bool) (v w u : DetailsVisitor)
    → Adds f v w
    → Adds g w u
    → Adds (λ m. f m || g m) v u
Adds-trans f g v w u p q = record {
  same = q.same ∙ p.same;
  added = λ m.
      q.added m
      ∙ rw (p.added m, p.same)
          (or_assoc (contains v.m_details.macros m) (contains v.m_details.known_macros m) (f m)
            (g m));
}

Finds-trans :
    (f g : String → Bool) (v w : DetailsVisitor) (r : Resolving)
    → Adds f v w
    → Finds g w r
    → Finds (λ m. f m || g m) v r
Finds-trans f g v w (visited u) p q = Adds-trans f g v w u p q
Finds-trans f g v w (runtime_error what u) p q = tt

after_visit-Finds :
    (f g : String → Bool) (v : DetailsVisitor) (r : Resolving) (k : DetailsVisitor → Resolving)
    → Finds f v r
    → ((w : DetailsVisitor) → Finds g w (k w))
    → Finds (λ m. f m || g m) v (after_visit r k)
unfolding after_visit
after_visit-Finds f g v (visited w) k p q = Finds-trans f g v w (k w) p (q w)
after_visit-Finds f g v (runtime_error what w) k p q = tt

-- A step that changes no macros.
step :
    (v w : DetailsVisitor)
    → w.m_details.known_macros ≡ v.m_details.known_macros
    → w.m_details.macros ≡ v.m_details.macros
    → Adds (λ m. false) v w
step v w p q = record { same = p; added = λ m. rw q (ground arith) }

same_mentions :
    (f g : String → Bool) (v : DetailsVisitor) (r : Resolving)
    → ((m : String) → f m ≡ g m)
    → Finds f v r
    → Finds g v r
same_mentions f g v (visited w) e p = record {
  same = p.same;
  added = λ m. p.added m ∙ rw (e m) refl;
}
same_mentions f g v (runtime_error what w) e p = tt

contains-add_name :
    (s : String) (names : List String) (m : String)
    → contains (add_name s names) m ≡ (contains names m || (m == s))
unfolding add_name
contains-add_name s names m = elim (Bool-cases (contains names s)) [
  | inl q ↦
      rw (q, add_name)
        (elim (==_cases m s) [
          | inl (t, e) ↦
              let here = subst (λ (x : String). contains names x ≡ true) (sym e) q in
              rw (t, here) refl
          | inr (t, e) ↦ rw t (ground arith)
        ])
  | inr q ↦ rw (q, add_name, contains-append names (s ∷ []) m) (ground arith)
]

known_case :
    (m s : String) (v : DetailsVisitor)
    → contains v.m_details.known_macros s ≡ true
    → (contains v.m_details.macros m || (m == s))
      ≡ (contains v.m_details.macros m || (contains v.m_details.known_macros m && (m == s)))
known_case m s v q = elim (==_cases m s) [
  | inl (t, e) ↦
      let here = subst (λ (x : String). contains v.m_details.known_macros x ≡ true) (sym e) q in
      rw (t, here) refl
  | inr (t, e) ↦ rw t (ground arith)
]

unknown_case :
    (m s : String) (v : DetailsVisitor)
    → contains v.m_details.known_macros s ≡ false
    → contains v.m_details.macros m
      ≡ (contains v.m_details.macros m || (contains v.m_details.known_macros m && (m == s)))
unknown_case m s v q = elim (==_cases m s) [
  | inl (t, e) ↦
      let here = subst (λ (x : String). contains v.m_details.known_macros x ≡ false) (sym e) q in
      rw (t, here) (ground arith)
  | inr (t, e) ↦ rw t (ground arith)
]

visit_identifier_expr-Adds :
    (s : String) (v : DetailsVisitor) → Adds (λ m. m == s) v (visit_identifier_expr s v)
unfolding visit_identifier_expr
visit_identifier_expr-Adds s v = record {
  same = refl;
  added = λ m. elim (Bool-cases (contains v.m_details.known_macros s)) [
    | inl q ↦ rw (q, contains-add_name s v.m_details.macros m) (known_case m s v q)
    | inr q ↦ rw q (unknown_case m s v q)
  ];
}

need_field-Finds : (what : String) (v : DetailsVisitor) → Finds (λ m. false) v (need_field what v)
unfolding need_field
need_field-Finds what v = elim (Bool-cases (is_empty_text v.m_last_node_field_name)) [
  | inl q ↦ rw (q, need_field) tt
  | inr q ↦ rw (q, need_field) (step v v refl refl)
]

or_falses : (a b : Bool) → (false || (a || (false || (b || false)))) ≡ (a || b)
or_falses a b = ground arith

or_inner : (a : Bool) → (false || (a || (false || false))) ≡ a
or_inner a = ground arith

-- What is found after a step that changes no macros is found before it.
after_step :
    (f : String → Bool) (v w : DetailsVisitor) (r : Resolving)
    → Adds (λ m. false) v w
    → Finds f w r
    → Finds f v r
after_step f v w r p q = same_mentions _ f v r (λ m. refl) (Finds-trans (λ m. false) f v w r p q)

mutual
  unfolding visit_value visit_list visit_field visit_transformer start_unary start_binary end_unary
      end_binary expect_right

  visit-Finds : (e : Expr) (v : DetailsVisitor) → Finds (mentions e) v (visit_expr e v)
  visit-Finds (and_expr es) v = visit_exprs-Finds es v
  visit-Finds (or_expr es) v = visit_exprs-Finds es v
  visit-Finds (not_expr e) v = visit-Finds e v
  visit-Finds (identifier_expr identifier at) v = visit_identifier_expr-Adds identifier v
  visit-Finds (value_expr value) v = step v (visit_value value v) refl refl
  visit-Finds (list_expr values) v = step v (visit_list values v) refl refl
  visit-Finds (unary_check_expr left op) v =
      same_mentions _ (mentions left) v _ (λ m. or_inner (mentions left m))
        (Finds-trans (λ m. false) _ v (start_unary v) _ (step v (start_unary v) refl refl)
          (after_visit-Finds (mentions left) _ (start_unary v) (visit_expr left (start_unary v)) _
            (visit-Finds left (start_unary v))
            λ w.
              after_visit-Finds (λ m. false) (λ m. false) w
                (need_field "can't find field info in unary check expression" w) _
                (need_field-Finds _ w) λ u. step u (end_unary op u) refl refl))
  visit-Finds (binary_check_expr left op right) v =
      same_mentions _ (λ m. mentions left m || mentions right m) v _
        (λ m. or_falses (mentions left m) (mentions right m))
        (Finds-trans (λ m. false) _ v (start_binary v) _ (step v (start_binary v) refl refl)
          (after_visit-Finds (mentions left) _ (start_binary v) (visit_expr left (start_binary v)) _
            (visit-Finds left (start_binary v))
            λ w.
              after_visit-Finds (λ m. false) _ w
                (need_field "can't find field info in binary check expression" w) _
                (need_field-Finds _ w)
                λ u.
                  after_visit-Finds (mentions right) (λ m. false) u
                    (visit_expr right (expect_right op u)) _
                    (after_step (mentions right) u (expect_right op u) _
                      (step u (expect_right op u) refl refl)
                      (visit-Finds right (expect_right op u)))
                    λ t. step t (end_binary t) refl refl))
  visit-Finds (field_expr field arg) v = step v (visit_field field arg v) refl refl
  visit-Finds (field_transformer_expr transformer value) v =
      after_step (mentions value) v (visit_transformer transformer v) _
        (step v (visit_transformer transformer v) refl refl)
        (visit-Finds value (visit_transformer transformer v))

  visit_exprs-Finds :
      (es : Exprs) (v : DetailsVisitor) → Finds (mentions_all es) v (visit_exprs es v)
  visit_exprs-Finds end v = step v v refl refl
  visit_exprs-Finds (child e es) v =
      after_visit-Finds (mentions e) (mentions_all es) v (visit_expr e v) _ (visit-Finds e v)
        λ w. visit_exprs-Finds es w

-- Where the run throws nothing, a macro is among the details exactly if it was before, or if it is a
-- known macro that an identifier of the filter names, wherever in the filter that stands.
pub contains-run :
    (filter : Expr) (details : FilterDetails) (w : DetailsVisitor) (m : String)
    → run filter details ≡ visited w
    → contains w.m_details.macros m
      ≡ (contains details.macros m || (contains details.known_macros m && mentions filter m))
unfolding run
contains-run filter details w m e =
    let start : DetailsVisitor = record {
      m_details = details;
      m_expect_list = false;
      m_expect_evtname = false;
      m_last_node_field_name = "";
    } in
    (subst (λ r. Finds (mentions filter) start r) e (visit-Finds filter start)).added m
