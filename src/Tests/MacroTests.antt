-- ===== src/Tests/MacroTests.antt =====
-- Macros: a filter over two macros, one inside the other, and a loop.
use falco.Prelude.{
  ℕ, ◌<◌, String, ◌≡◌, refl, ap, subst, inl, inr, Bool, true, false, none, some, [], ◌∷◌, arith,
  if◌then◌else◌, ◌==◌, ==_cases, nat_eq, string_eq, list_eq, All,
}
use falco.Filter.{
  Expr, and_expr, or_expr, not_expr, identifier_expr, unary_check_expr, field_expr, end, child,
}
use falco.MacroResolver.{
  ValueInfo, MacroDefs, find_macro, visit_unknown, visit_loop, finish_macro, visit_macro,
  visit_identifier, visit_node, visit, Resolver, Run, finish_run, run,
}
use falco.MacroResolver.Visits.{IsUndefined}
use falco.MacroResolver.Meaning.{value, IsModel, run-value, run_total}
use falco.MacroResolver.Unknown.{references, run-unknown}
use falco.MacroResolver.Acyclic.{IsDefined, IsRanked, run-acyclic}

abbrev check_a : Expr
check_a = unary_check_expr (field_expr "a" "") "exists"

abbrev check_b : Expr
check_b = unary_check_expr (field_expr "b" "") "exists"

-- outer: inner and b; inner: a; looping: not looping
abbrev defs : MacroDefs
defs =
    ("outer", some (and_expr (child (identifier_expr "inner" 1) (child check_b end))))
    ∷ ("inner", some check_a)
    ∷ ("gone", none)
    ∷ []

abbrev resolver : Resolver
resolver = record { m_errors = []; m_unknown_macros = []; m_resolved_macros = []; m_macros = defs }

abbrev filter : Expr
filter = or_expr (child (identifier_expr "outer" 7) (child (identifier_expr "gone" 9) end))

abbrev resolved : Expr
resolved =
    or_expr
      (child (and_expr (child check_a (child check_b end))) (child (identifier_expr "gone" 9) end))

abbrev result : Run
result = (
  record resolver {
    m_unknown_macros = ("gone", 9) ∷ [];
    m_resolved_macros = ("inner", 1) ∷ ("outer", 7) ∷ [];
  },
  resolved,
  true,
)

run_result : run resolver filter ≡ some result
unfolding run visit visit_node visit_identifier visit_macro visit_loop visit_unknown finish_macro
    finish_run find_macro string_eq
run_result = refl

abbrev looping : Resolver
looping = record {
  m_errors = [];
  m_unknown_macros = [];
  m_resolved_macros = [];
  m_macros = ("m", some (not_expr (identifier_expr "m" 3))) ∷ [];
}

run_loop :
    run looping (identifier_expr "m" 5)
    ≡ some (
      record looping {
        m_errors = ("reference loop in macro 'm'", 3) ∷ [];
        m_unknown_macros = ("m", 3) ∷ [];
        m_resolved_macros = ("m", 5) ∷ [];
      },
      not_expr (identifier_expr "m" 3),
      true,
    )
unfolding run visit visit_node visit_identifier visit_macro visit_loop visit_unknown finish_macro
    finish_run find_macro string_eq
run_loop = refl

abbrev always : Expr → Bool
always e = true

abbrev all_true : String → Bool
all_true name = true

same_tree : (e m : Expr) → some (some e) ≡ some (some m) → e ≡ m
same_tree e m h = cc

defs-IsModel : IsModel always all_true defs
unfolding find_macro value
defs-IsModel name m h = elim (==_cases name "outer") [
  | inl (t, e) ↦
      ap (value always all_true)
        (same_tree (and_expr (child (identifier_expr "inner" 1) (child check_b end))) m (rw t at h))
  | inr (t, e) ↦ elim (==_cases name "inner") [
    | inl (u, e') ↦ ap (value always all_true) (same_tree check_a m (rw (t, u) at h))
    | inr (u, e') ↦ elim (==_cases name "gone") [
      | inl (w, e'') ↦ cc (rw (t, u, w) at h)
      | inr (w, e'') ↦ cc (rw (t, u, w) at h)
    ]
  ]
]

run-value_example : value always all_true resolved ≡ value always all_true filter
run-value_example = run-value always all_true resolver filter result run_result defs-IsModel

run-unknown_example : result.0.m_unknown_macros ≡ references resolved
run-unknown_example = run-unknown resolver filter result run_result

abbrev bare : Expr
bare = not_expr (identifier_expr "gone" 4)

abbrev bare_result : Run
bare_result = (record resolver { m_unknown_macros = ("gone", 4) ∷ [] }, bare, false)

run_bare : run resolver bare ≡ some bare_result
unfolding run visit visit_node visit_identifier visit_macro visit_loop visit_unknown finish_macro
    finish_run find_macro string_eq
run_bare = refl

run_total_example : (out : Run) × (run looping (identifier_expr "m" 5) ≡ some out)
run_total_example = run_total looping (identifier_expr "m" 5)

abbrev rank : String → ℕ
rank name = if name == "outer" then 1 else 0

abbrev RankedIn : String → Expr → Type 0
RankedIn name m =
    All (λ ((n, pos) : ValueInfo). IsDefined defs n → rank n < rank name) (references m)

defs-IsRanked : IsRanked defs rank
unfolding find_macro references string_eq
defs-IsRanked name m h = elim (==_cases name "outer") [
  | inl (t, e) ↦
      subst (RankedIn name)
        (same_tree (and_expr (child (identifier_expr "inner" 1) (child check_b end))) m (rw t at h))
        (rw e ((λ _. omega arith), tt))
  | inr (t, e) ↦ elim (==_cases name "inner") [
    | inl (u, e') ↦ subst (RankedIn name) (same_tree check_a m (rw (t, u) at h)) tt
    | inr (u, e') ↦ elim (==_cases name "gone") [
      | inl (w, e'') ↦ absurd (cc (rw (t, u, w) at h))
      | inr (w, e'') ↦ absurd (cc (rw (t, u, w) at h))
    ]
  ]
]

run-acyclic_example :
    (result.0.m_errors ≡ [])
    × All (λ ((n, pos) : ValueInfo). IsUndefined (find_macro n defs)) (references resolved)
run-acyclic_example = run-acyclic rank resolver filter result defs-IsRanked run_result
