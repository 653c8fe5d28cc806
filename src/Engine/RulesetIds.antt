-- ===== src/Engine/RulesetIds.antt =====
-- userspace/engine/falco_engine.cpp: `find_ruleset_id`, the ids of the rulesets' names.
use falco.Prelude.{
  ℕ, ◌+◌, ◌^◌, ◌≤◌, ◌<◌, String, ◌≡◌, refl, sym, ap, ◌∙◌, subst, ◌↔◌, inl, inr, some, List, [], ◌∷◌,
  arith, Option-cases, ==_self, ==_cases, nat_eq, string_eq, list_eq, length,
}
use mathlib.Core.Option.{none-ne-some, some_inj}
use falco.IndexedVector.{find, assign}
use falco.IndexedVector.Invariant.{find-assign}
use falco.Collector.{Collector}
use falco.Engine.{FalcoEngine, find_ruleset_id, new_engine}

module _ {R SinspVersion : Type 0} where
  -- The known ids are below the next one, and no two names share one.
  pub record HasIds (e : FalcoEngine R SinspVersion) : Type 0 where
    pub below : (k : String) (i : ℕ) → find k e.m_known_rulesets ≡ some i → i < e.m_next_ruleset_id
    pub unique :
        (j k : String) (i : ℕ)
        → find j e.m_known_rulesets ≡ some i
        → find k e.m_known_rulesets ≡ some i
        → j ≡ k

  known :
      (name : String) (e : FalcoEngine R SinspVersion) (i : ℕ)
      → find name e.m_known_rulesets ≡ some i
      → find_ruleset_id name e ≡ (e, i)
  unfolding find_ruleset_id
  known name e i q = rw (q, find_ruleset_id) refl

  -- What a lookup promises of the engine that it leaves.
  record Found (name : String) (e : FalcoEngine R SinspVersion) (r : FalcoEngine R SinspVersion × ℕ)
      : Type 0 where
    ids : HasIds r.0
    found : find name r.0.m_known_rulesets ≡ some r.1
    keeps :
        (k : String) (i : ℕ)
        → find k e.m_known_rulesets ≡ some i
        → find k r.0.m_known_rulesets ≡ some i
    next : r.0.m_next_ruleset_id ≤ e.m_next_ruleset_id + 1

  find_ruleset_id_lem :
      (name : String) (e : FalcoEngine R SinspVersion)
      → e.m_next_ruleset_id + 1 < 2 ^ 16
      → HasIds e
      → Found name e (find_ruleset_id name e)
  unfolding find_ruleset_id
  find_ruleset_id_lem name e b h = elim (Option-cases (find name e.m_known_rulesets)) [
    | inl q ↦
        rw (q, find_ruleset_id)
          (record {
            ids = record {
              below = λ k i. rw find-assign (ground (arith, h.below k i, b));
              unique = λ j k i.
                  rw (find-assign name j, find-assign name k)
                    (ground (arith, h.below j i, h.below k i, h.unique j k i));
            };
            found = rw (find-assign, ==_self name) refl;
            keeps = λ k i p. elim (==_cases k name) [
              | inl (t, n) ↦ absurd (
                  none-ne-some i
                    (sym q ∙ subst (λ (j : String). find j e.m_known_rulesets ≡ some i) n p))
              | inr (t, n) ↦ rw (find-assign, t) p
            ];
            next = omega (arith, b);
          })
    | inr (i, q) ↦
        rw (q, find_ruleset_id)
          (record { ids = h; found = q; keeps = λ k j p. p; next = omega arith })
  ]

  unfoldable pub find_ruleset_ids :
      List String → FalcoEngine R SinspVersion → FalcoEngine R SinspVersion
  find_ruleset_ids [] e = e
  find_ruleset_ids (name ∷ names) e = find_ruleset_ids names (find_ruleset_id name e).0

  find_ruleset_ids-HasIds :
      (names : List String) (e : FalcoEngine R SinspVersion)
      → e.m_next_ruleset_id + length names < 2 ^ 16
      → HasIds e
      → HasIds (find_ruleset_ids names e)
        × ((find_ruleset_ids names e).m_next_ruleset_id ≤ e.m_next_ruleset_id + length names)
  unfolding find_ruleset_ids
  find_ruleset_ids-HasIds [] e b h = (h, omega arith)
  find_ruleset_ids-HasIds (name ∷ names) e b h =
      let f = find_ruleset_id_lem name e (omega (arith, b)) h in
      let (h', le) =
        find_ruleset_ids-HasIds names (find_ruleset_id name e).0 (omega (arith, b, f.next)) f.ids in
      (h', omega (arith, le, f.next))

  new_engine-HasIds :
      (col : Collector SinspVersion)
      → HasIds (new_engine {R = R} col) × ((new_engine {R = R} col).m_next_ruleset_id ≡ 1)
  unfolding new_engine find_ruleset_id find assign
  new_engine-HasIds col =
      (record { below = λ k i. ground arith; unique = λ j k i. ground arith }, refl)

-- After a new engine has looked up fewer than 65,533 names, two further lookups give the same id
-- exactly if they are of the same name.
pub find_ruleset_id-inj :
    (R : Type 0) {SinspVersion : Type 0} (col : Collector SinspVersion) (names : List String)
    (a b : String)
    → length names + 3 < 2 ^ 16
    → ((find_ruleset_id a (find_ruleset_ids names (new_engine {R = R} col))).1
        ≡ (find_ruleset_id b
            (find_ruleset_id a (find_ruleset_ids names (new_engine {R = R} col))).0).1)
      ↔ (a ≡ b)
find_ruleset_id-inj R col names a b n =
    let (h, one) = new_engine-HasIds {R = R} col in
    let (h', le) =
      find_ruleset_ids-HasIds names (new_engine {R = R} col) (omega (arith, n, one)) h in
    let e = find_ruleset_ids names (new_engine {R = R} col) in
    let fa = find_ruleset_id_lem a e (omega (arith, n, one, le)) h' in
    let e' = (find_ruleset_id a e).0 in
    let fb = find_ruleset_id_lem b e' (omega (arith, n, one, le, fa.next)) fa.ids in
    (
      λ q. fb.ids.unique a b _ (fb.keeps a _ fa.found) (fb.found ∙ ap some (sym q)),
      λ q. some_inj.0 (
          sym (fb.keeps a _ fa.found)
          ∙ ap (λ k. find k (find_ruleset_id b e').0.m_known_rulesets) q
          ∙ fb.found),
    )
