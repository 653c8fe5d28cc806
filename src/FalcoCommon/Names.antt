-- ===== src/FalcoCommon/Names.antt =====
-- userspace/engine/falco_common.cpp: parsing and formatting a priority.
use falco.Prelude.{
  ℕ, zero, suc, ◌+◌, String, ◌≡◌, refl, ap, ◌∙◌, subst, ◌↔◌, inl, inr, Bool, true, false, some,
  List, [], ◌∷◌, arith, ℕ_discrete, ltb, ltb→lt, lt→ltb, Bool-cases, ◌==◌, ==_cases, nat_eq,
  string_eq, list_eq, get_elem?, get_elem?-eq_some,
}
use mathlib.Core.Option.{some_inj}
use falco.ByteString.{Bytes}
use falco.Rule.{Priority}
use falco.FalcoCommon.{
  priority_names, priority_informational, c_str, to_lower, lowered, is_priority, find_priority,
  parse_priority, format_priority,
}

-- In lower case, and before the first NUL, the text is a name of the priority in some format.
abbrev pub IsNamed : String → Priority → Type 0
IsNamed s v =
    (shortfmt : Bool) × (name : String) × (format_priority v shortfmt ≡ some name)
    × (lowered s ≡ lowered name)

format_priority-lt :
    (v : Priority) (b : Bool) (name : String) → format_priority v b ≡ some name → ltb v 8 ≡ true
unfolding format_priority
format_priority-lt v b name = elim (Bool-cases (ltb v 8)) [
  | inl e ↦ λ h. e
  | inr e ↦ rw (e, format_priority) (λ h. cc)
]

-- Each name that a priority is formatted with is parsed as the priority.
names_parse :
    (v : Priority) (b : Bool) (name : String)
    → format_priority v b ≡ some name
    → parse_priority name ≡ some v
unfolding format_priority parse_priority find_priority c_str to_lower ℕ_discrete list_eq
names_parse zero b name h = subst (λ n. parse_priority n ≡ some 0) (some_inj.0 h) refl
names_parse (suc zero) b name h = subst (λ n. parse_priority n ≡ some 1) (some_inj.0 h) refl
names_parse (suc (suc zero)) b name h = subst (λ n. parse_priority n ≡ some 2) (some_inj.0 h) refl
names_parse (suc (suc (suc zero))) b name h =
    subst (λ n. parse_priority n ≡ some 3) (some_inj.0 h) refl
names_parse (suc (suc (suc (suc zero)))) b name h =
    subst (λ n. parse_priority n ≡ some 4) (some_inj.0 h) refl
names_parse (suc (suc (suc (suc (suc zero))))) b name h =
    subst (λ n. parse_priority n ≡ some 5) (some_inj.0 h) refl
names_parse (suc (suc (suc (suc (suc (suc zero)))))) true name h =
    subst (λ n. parse_priority n ≡ some 6) (some_inj.0 h) refl
names_parse (suc (suc (suc (suc (suc (suc zero)))))) false name h =
    subst (λ n. parse_priority n ≡ some 6) (some_inj.0 h) refl
names_parse (suc (suc (suc (suc (suc (suc (suc zero))))))) b name h =
    subst (λ n. parse_priority n ≡ some 7) (some_inj.0 h) refl
names_parse (suc (suc (suc (suc (suc (suc (suc (suc n)))))))) b name h = absurd (
    omega (
      arith,
      ltb→lt (suc (suc (suc (suc (suc (suc (suc (suc n)))))))) 8
          (format_priority-lt (suc (suc (suc (suc (suc (suc (suc (suc n)))))))) b name h),
    ))

-- What the loop finds is in the list, and passes the test.
find_priority-some :
    (l : Bytes) (i : ℕ) (names : List String) (v : Priority)
    → find_priority l i names ≡ some v
    → (k : ℕ) × (name : String) × (v ≡ i + k)
      × (get_elem? names k ≡ some name)
      × (is_priority l v name ≡ true)
unfolding find_priority
find_priority-some l i [] v = λ h. cc
find_priority-some l i (name ∷ names) v = elim (Bool-cases (is_priority l i name)) [
  | inl e ↦
      rw (e, find_priority)
        (λ h.
          let q : i ≡ v = some_inj.0 h in
          (0, name, omega (arith, q), refl, subst (λ j. is_priority l j name ≡ true) q e))
  | inr e ↦
      rw (e, find_priority)
        (λ h.
          let (k, other, p, g, t) = find_priority-some l (i + 1) names v h in
          (suc k, other, omega (arith, p), g, t))
]

format_full :
    (v : Priority) (name : String)
    → get_elem? priority_names v ≡ some name
    → format_priority v false ≡ some name
unfolding format_priority
format_full v name h =
    let b : ltb v 8 ≡ true = lt→ltb v 8 (get_elem?-eq_some priority_names v name h) in
    elim (Bool-cases (v == priority_informational)) [
      | inl e ↦ rw (b, e, format_priority) h
      | inr e ↦ rw (b, e, format_priority) h
    ]

priority-IsNamed :
    (s : String) (v : Priority) (name : String)
    → get_elem? priority_names v ≡ some name
    → is_priority (lowered s) v name ≡ true
    → IsNamed s v
unfolding format_priority ℕ_discrete to_lower c_str
priority-IsNamed s v name g = elim (==_cases (lowered s) (lowered name)) [
  | inl (t, p) ↦ λ h. (false, name, format_full v name g, p)
  | inr (t, p) ↦ elim (==_cases v priority_informational) [
    | inr (u, q) ↦ rw (t, u) (λ h. cc)
    | inl (u, q) ↦ elim (==_cases (lowered s) (lowered "info")) [
      | inr (w, r) ↦ rw (t, u, w) (λ h. cc)
      | inl (w, r) ↦ λ h. (true, "Info", rw q refl, r ∙ refl)
    ]
  ]
]

-- A text is parsed as a priority exactly if what stands before its first NUL is, up to the case of its
-- ASCII letters, one of the names that the priority is formatted with, in the long or in the short form.
pub parse_priority_iff : (s : String) (v : Priority) → (parse_priority s ≡ some v) ↔ IsNamed s v
unfolding parse_priority
parse_priority_iff s v = (
  λ h.
      let (k, name, p, g, t) = find_priority-some (lowered s) 0 priority_names v h in
      let q : k ≡ v = omega (arith, p) in
      priority-IsNamed s v name (subst (λ j. get_elem? priority_names j ≡ some name) q g) t,
  λ (b, name, f, e). ap (λ l. find_priority l 0 priority_names) e ∙ names_parse v b name f,
)
