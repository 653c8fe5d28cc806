-- ===== src/Engine/Loaded.antt =====
-- userspace/engine/falco_engine.cpp: the rules of a compilation are added without a clash of ids.
use falco.Prelude.{
  ℕ, ◌<◌, String, ◌<>◌, ◌≡◌, refl, sym, ap, ◌∙◌, subst, ◌⊎◌, inl, inr, Bool, true, none, some, List,
  [], ◌∷◌, ◌++◌, arith, ltb, Bool-cases, Option-cases, ==_self, ==_cases, nat_eq, string_eq,
  list_eq, length, get_elem?, length-append,
}
use mathlib.Core.List.{append-nil, append_assoc}
use mathlib.Core.Option.{none-ne-some, some_inj}
use falco.IndexedVector.{IndexedVector, find, insert, at, empty_vector}
use falco.IndexedVector.Invariant.{find-assign}
use falco.RuleInfo.{RuleInfo}
use falco.Rule.{FalcoRule}
use falco.Compiler.Numbered.{IsNumbered}
use falco.LoadInfo.{Configuration, LoadResult}
use falco.Collector.{Collector}
use falco.Compiler.Infos.{CompilerLibraries}
use falco.Compiler.Rules.{compile}
use falco.Compiler.Output.{compile-IsNumbered}
use falco.Reader.{std_exception, after}
use falco.Engine.{FilterRuleset, EngineSource, FalcoEngine}
use falco.Engine.Loading.{
  Loading, loaded, load_failed, endless, switch_rule, insert_rule, add_found, add_rule, add_rules,
  recreate, finish_loading, finish_added, add_output,
}

-- What was inserted so far are the first of the compiled rules, found at their positions.
record IsPrefix (v : IndexedVector FalcoRule) (done : List FalcoRule) (m : IndexedVector FalcoRule)
    : Type 0 where
  entries : m.m_entries ≡ done
  found :
      (k : String) (j : ℕ)
      → find k m.m_index ≡ some j
      → (find k v.m_index ≡ some j) × (j < length done)

middle :
    (xs : List FalcoRule) (x : FalcoRule) (ys : List FalcoRule)
    → get_elem? (xs ++ x ∷ ys) (length xs) ≡ some x
middle [] x ys = refl
middle (y ∷ xs) x ys = middle xs x ys

abbrev pub rules_of :
    {R SinspVersion : Type 0} → FalcoEngine R SinspVersion → IndexedVector FalcoRule
rules_of e = e.m_rules

-- Every rule is there, or an exception says that a rule's info or source is missing.
abbrev pub IsAdded :
    (v : IndexedVector FalcoRule)
    → {E A : Type 0} → (E → IndexedVector FalcoRule)
    → (name : String) → Loading E A
    → Type 0
IsAdded v rules_of name (loaded u e) = (rules_of e).m_entries ≡ v.m_entries
IsAdded v rules_of name (load_failed f e) =
    (f ≡ std_exception ("can't find internal rule info at name: " <> name))
    ⊎ ((source : String) × (f ≡ std_exception ("Unknown event source " <> source)))
IsAdded v rules_of name (endless e) = ⊥

module _ (v : IndexedVector FalcoRule) (h : IsNumbered v) where
  -- The next rule is not there yet.
  next-absent :
      (done : List FalcoRule) (rule : FalcoRule) (rest : List FalcoRule)
      (m : IndexedVector FalcoRule)
      → v.m_entries ≡ done ++ rule ∷ rest
      → IsPrefix v done m
      → find rule.name m.m_index ≡ none
  next-absent done rule rest m e p = elim (Option-cases (find rule.name m.m_index)) [
    | inl q ↦ q
    | inr (j, q) ↦
        let (there, lt) = p.found rule.name j q in
        let here =
          h.named.position (length done) rule (
            subst (λ xs. get_elem? xs (length done) ≡ some rule) (sym e) (middle done rule rest)) in
        absurd (omega (arith, lt, some_inj.0 (sym there ∙ here)))
  ]

  insert-IsPrefix :
      (done : List FalcoRule) (rule : FalcoRule) (rest : List FalcoRule)
      (m : IndexedVector FalcoRule)
      → v.m_entries ≡ done ++ rule ∷ rest
      → IsPrefix v done m
      → IsPrefix v (done ++ rule ∷ []) (insert rule rule.name m).0
        × ((insert rule rule.name m).1 ≡ length done)
  unfolding insert
  insert-IsPrefix done rule rest m e p =
      let at_end = length-append done (rule ∷ []) in
      let here : find rule.name v.m_index ≡ some (length done) =
        h.named.position (length done) rule
          (subst (λ xs. get_elem? xs (length done) ≡ some rule) (sym e) (middle done rule rest)) in
      rw (next-absent done rule rest m e p, insert)
        (
          record {
            entries = ap (λ (xs : List FalcoRule). xs ++ rule ∷ []) p.entries;
            found = λ k j q. elim (==_cases k rule.name) [
              | inl (t, n) ↦
                  let new : some (length m.m_entries) ≡ some j =
                    sym (find-assign rule.name k (length m.m_entries) m.m_index ∙ rw t refl) ∙ q in
                  let size = ap length p.entries in
                  (
                    subst (λ i. find k v.m_index ≡ some i) (sym size ∙ some_inj.0 new)
                        (subst (λ s. find s v.m_index ≡ some (length done)) (sym n) here),
                    omega (arith, at_end, size, some_inj.0 new),
                  )
              | inr (t, n) ↦
                  let (there, lt) = p.found k j (
                    sym (find-assign rule.name k (length m.m_entries) m.m_index ∙ rw t refl) ∙ q) in
                  (there, omega (arith, at_end, lt))
            ];
          },
          ap length p.entries,
        )

  module _ {R Event SinspVersion : Type 0} (ops : FilterRuleset R Event) where
    switch_rule-rules :
        (rule : FalcoRule) (b : Bool) (source : EngineSource R) (e : FalcoEngine R SinspVersion)
        → (switch_rule ops rule b source e).m_rules ≡ e.m_rules
    unfolding switch_rule
    switch_rule-rules rule b source e = elim (Bool-cases (ltb e.m_min_priority rule.priority)) [
      | inl q ↦ rw (q, switch_rule) refl
      | inr q ↦ rw (q, switch_rule) refl
    ]

    -- A rule that got its own id is switched.
    add_found_lem :
        (rule : FalcoRule) (info : RuleInfo) (source : EngineSource R)
        (e : FalcoEngine R SinspVersion)
        → (insert_rule rule e).1 ≡ rule.id
        → add_found ops rule info source e
          ≡ loaded tt (switch_rule ops rule info.enabled source (insert_rule rule e).0)
    unfolding add_found
    add_found_lem rule info source e q = rw (q, ==_self rule.id) refl

    add_rules-IsAdded :
        (name : String) (done rest : List FalcoRule) (e : FalcoEngine R SinspVersion)
        → v.m_entries ≡ done ++ rest
        → IsPrefix v done e.m_rules
        → IsAdded v rules_of name (add_rules ops name rest e)
    unfolding add_rules add_rule insert_rule
    add_rules-IsAdded name done [] e q p = p.entries ∙ sym (append-nil done) ∙ sym q
    add_rules-IsAdded name done (rule ∷ rest) e q p =
        elim (Option-cases (at rule.name e.m_rule_collector.m_rule_infos)) [
          | inl n ↦ rw (n, add_rules, add_rule) (inl refl)
          | inr (info, n) ↦ elim (Option-cases (at rule.source e.m_sources)) [
            | inl k ↦ rw (n, k, add_rules, add_rule) (inr (rule.source, refl))
            | inr (source, k) ↦
                let (p', idq) = insert-IsPrefix done rule rest e.m_rules q p in
                let e' = (insert_rule rule e).0 in
                let own =
                  idq
                  ∙ sym (
                      h.ids (length done) rule (
                        subst (λ xs. get_elem? xs (length done) ≡ some rule) (sym q)
                          (middle done rule rest))) in
                rw (n, k, add_rules, add_rule, add_found_lem rule info source e own)
                  (add_rules-IsAdded name (done ++ rule ∷ []) rest
                    (switch_rule ops rule info.enabled source e')
                    (q ∙ sym (append_assoc done (rule ∷ []) rest))
                    (subst (λ m. IsPrefix v (done ++ rule ∷ []) m)
                      (sym (switch_rule-rules rule info.enabled source e')) p'))
          ]
        ]

    recreate-rules :
        (rules : List FalcoRule) (e : FalcoEngine R SinspVersion)
        → (recreate ops rules e).m_rules ≡ empty_vector
    unfolding recreate
    recreate-rules rules e = refl

    -- Nothing is inserted in the cleared vector.
    nothing-IsPrefix :
        (rules : List FalcoRule) (e : FalcoEngine R SinspVersion)
        → IsPrefix v [] (recreate ops rules e).m_rules
    unfolding find
    nothing-IsPrefix rules e =
        subst (λ m. IsPrefix v [] m) (sym (recreate-rules rules e))
          (record { entries = refl; found = λ k j q. absurd (none-ne-some j q) })

    -- The compiled rules are added to the engine.
    all-IsAdded :
        (name : String) (e : FalcoEngine R SinspVersion)
        → IsAdded v rules_of name (add_rules ops name v.m_entries (recreate ops v.m_entries e))
    all-IsAdded name e =
        add_rules-IsAdded name [] v.m_entries (recreate ops v.m_entries e) refl
          (nothing-IsPrefix v.m_entries e)

    finish_loading-rules :
        (res : LoadResult) (e : FalcoEngine R SinspVersion) (name : String)
        → e.m_rules.m_entries ≡ v.m_entries
        → IsAdded v rules_of name (finish_loading res e)
    unfolding finish_loading
    finish_loading-rules res e name q = elim (Bool-cases res.success) [
      | inl p ↦ rw (p, finish_loading) q
      | inr p ↦ rw (p, finish_loading) q
    ]

    finish_adding :
        (res : LoadResult) (name : String) (l : Loading (FalcoEngine R SinspVersion) (Unit {0}))
        → IsAdded v rules_of name l
        → IsAdded v rules_of name (finish_added res l)
    unfolding finish_added
    finish_adding res name (loaded u e) q = finish_loading-rules res e name q
    finish_adding res name (load_failed f e) q = q
    finish_adding res name (endless e) q = q

-- Where the compilation succeeds, the engine's rules are those of its output in their order, or an
-- exception says that a rule's info or source is missing; the ids of the rules never clash.
pub add_output-IsAdded :
    {R Event SinspVersion : Type 0} (ops : FilterRuleset R Event) (clib : CompilerLibraries)
    (cfg : Configuration) (col : Collector SinspVersion) (name : String)
    (e : FalcoEngine R SinspVersion)
    → (after (compile clib cfg col)).cfg.res.success ≡ true
    → IsAdded
        (after (compile clib cfg col)).rules
        rules_of
        name
        (add_output ops name (after (compile clib cfg col)) e)
unfolding add_output
add_output-IsAdded ops clib cfg col name e q =
    let out = after (compile clib cfg col) in
    rw q (
      finish_adding out.rules (compile-IsNumbered clib cfg col) ops out.cfg.res name _
        (all-IsAdded out.rules (compile-IsNumbered clib cfg col) ops name _))
