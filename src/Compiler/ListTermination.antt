-- ===== src/Compiler/ListTermination.antt =====
-- userspace/engine/rule_loader_compiler.cpp: the replacement of a list's references ends.
use falco.Prelude.{
  ℕ, zero, suc, ◌+◌, ◌-◌, ◌≤◌, String, ◌≡◌, refl, ap, ◌≢◌, inl, inr, Bool, true, false, ◌&&◌, some,
  List, [], ◌∷◌, ◌++◌, map, arith, ltb, leb, if◌then◌else◌, leb→le, Bool-cases, Option-cases, ◌==◌,
  nat_eq, string_eq, list_eq, length, take, drop, length-append, length-map, length-take_le,
  length-drop,
}
use Prim.Native.Char.{code}
use mathlib.Core.Option
use mathlib.Core.Option.{none-ne-some, some_inj}
use falco.ByteString.{find}
use falco.ByteString.Search.{find-some}
use falco.Compiler.ListReferences.{
  Text, to_text, is_blank, holds_at, find_from, skip_left, skip_right, join_values, is_empty,
  drop_comma, substitute, is_reference, resolve_at, resolve_from, resolve_list,
}

-- What is found stands behind the place from which it was looked for, and within the text.
find_from-some :
    (name cnd : Text) (from i : ℕ)
    → find_from name cnd from ≡ some i
    → (from ≤ i) × (i + length name ≤ length cnd)
unfolding find_from
find_from-some name cnd from i h = elim (Bool-cases (leb from (length cnd))) [
  | inr e ↦ absurd (none-ne-some i (rw (e, find_from) at h))
  | inl e ↦
      let k : Option.map (λ j. j + from) (find (map code name) (map code (drop from cnd)))
          ≡ some i =
        rw (e, find_from) at h in
      elim (Option-cases (find (map code name) (map code (drop from cnd)))) [
        | inl q ↦ absurd (none-ne-some i (rw q at k))
        | inr (j, q) ↦
            let f = find-some (map code name) (map code (drop from cnd)) j q in
            let ij : some (j + from) ≡ some i = rw q at k in
            let total = length-append f.before (map code name ++ f.after) in
            let rest = length-append (map code name) f.after in
            let whole = ap length f.split in
            (
              omega (arith, some_inj.0 ij),
              omega (
                arith,
                some_inj.0 ij,
                f.position,
                total,
                rest,
                whole,
                length-map (drop from cnd) code,
                length-map name code,
                length-drop from cnd,
                leb→le from (length cnd) e,
              ),
            )
      ]
]

skip_left-le : (cnd : Text) (start : ℕ) → skip_left cnd start ≤ start
unfolding skip_left
skip_left-le cnd zero = omega arith
skip_left-le cnd (suc start) = elim (Bool-cases (holds_at is_blank cnd start)) [
  | inl e ↦ rw (e, skip_left) (omega (arith, skip_left-le cnd start))
  | inr e ↦ rw (e, skip_left) (omega arith)
]

skip_right-le : (left : ℕ) (cnd : Text) (end : ℕ) → end ≤ skip_right left cnd end
unfolding skip_right
skip_right-le zero cnd end = omega arith
skip_right-le (suc left) cnd end = elim (Bool-cases (holds_at is_blank cnd end)) [
  | inl e ↦ rw (e, skip_right) (omega (arith, skip_right-le left cnd (end + 1)))
  | inr e ↦ rw (e, skip_right) (omega arith)
]

-- The end of what is replaced moves to the right only.
drop_comma-le : (cnd : Text) (start end : ℕ) → end ≤ (drop_comma cnd start end).1
unfolding drop_comma
drop_comma-le cnd start end =
    elim (Bool-cases (ltb 0 start && holds_at (λ c. code c == 44) cnd (start - 1))) [
      | inl e ↦ rw (e, drop_comma) (omega arith)
      | inr e ↦ elim (Bool-cases (holds_at (λ c. code c == 44) cnd end)) [
        | inl f ↦ rw (e, f, drop_comma) (omega arith)
        | inr f ↦ rw (e, f, drop_comma) (omega arith)
      ]
    ]

head-length :
    (cnd : Text) (s : ℕ) → length (if ltb 0 s then take s cnd ++ to_text " " else []) ≤ s + 1
head-length cnd s = elim (Bool-cases (ltb 0 s)) [
  | inl e ↦ rw e (omega (arith, length-append (take s cnd) (to_text " "), length-take_le s cnd))
  | inr e ↦ rw e (omega arith)
]

tail-length :
    (cnd : Text) (e : ℕ) → length (if leb e (length cnd) then drop e cnd else []) ≤ length cnd - e
tail-length cnd e = elim (Bool-cases (leb e (length cnd))) [
  | inl f ↦ rw f (omega (arith, length-drop e cnd))
  | inr f ↦ rw f (omega arith)
]

-- Behind a substitution no more is left than behind the start of a nonempty name.
substitute-length :
    (cnd sub : Text) (s e start : ℕ)
    → start + 1 ≤ e
    → start + 1 ≤ length cnd
    → length (substitute cnd sub s e).0 ≤ (substitute cnd sub s e).1 + (length cnd - start)
unfolding substitute
substitute-length cnd sub s e start h k =
    let head = if ltb 0 s then take s cnd ++ to_text " " else [] in
    let tail = if leb e (length cnd) then drop e cnd else [] in
    omega (
      arith,
      h,
      k,
      head-length cnd s,
      tail-length cnd e,
      length-append head ((sub ++ to_text " ") ++ tail),
      length-append (sub ++ to_text " ") tail,
      length-append sub (to_text " "),
    )

ends-le : (cnd : Text) (b : Bool) (s e : ℕ) → e ≤ (if b then drop_comma cnd s e else (s, e)).1
ends-le cnd true s e = drop_comma-le cnd s e
ends-le cnd false s e = omega arith

resolve_at-progress :
    (name sub cnd : Text) (start : ℕ) (used : Bool)
    → 1 ≤ length name
    → start + length name ≤ length cnd
    → length (resolve_at name sub cnd start used).0
      ≤ (resolve_at name sub cnd start used).1.0 + (length cnd - start)
unfolding resolve_at
resolve_at-progress name sub cnd start used n h =
    elim (Bool-cases (is_reference cnd start (start + length name))) [
      | inr e ↦ rw (e, resolve_at) (omega arith)
      | inl e ↦
          let end = start + length name in
          let s = skip_left cnd start in
          let t = skip_right (length cnd - end) cnd end in
          rw (e, resolve_at)
            (substitute-length cnd sub _ _ start
              (omega (
                arith,
                n,
                ends-le cnd (is_empty sub) s t,
                skip_right-le (length cnd - end) cnd end,
              ))
              (omega (arith, n, h)))
    ]

nonempty-length : (t : Text) → t ≢ [] → 1 ≤ length t
nonempty-length [] h = absurd (h refl)
nonempty-length (c ∷ t) h = omega arith

resolve_from_total :
    (fuel : ℕ) (name sub cnd : Text) (start : ℕ) (used : Bool)
    → 1 ≤ length name
    → start + length name ≤ length cnd
    → length cnd - start ≤ fuel
    → (r : Text × Bool) × (resolve_from fuel name sub cnd (some start) used ≡ some r)
unfolding resolve_from
resolve_from_total zero name sub cnd start used n h b = absurd (omega (arith, n, h, b))
resolve_from_total (suc fuel) name sub cnd start used n h b =
    let out = resolve_at name sub cnd start used in
    elim (Option-cases (find_from name out.0 (out.1.0 + 1))) [
      | inl e ↦ rw (e, resolve_from) ((out.0, out.1.1), refl)
      | inr (i, e) ↦
          let (le, fits) = find_from-some name out.0 (out.1.0 + 1) i e in
          rw (e, resolve_from)
            (resolve_from_total fuel name sub out.0 i out.1.1 n fits
              (omega (arith, n, h, b, le, fits, resolve_at-progress name sub cnd start used n h)))
    ]

-- The references to a list with a name are replaced in every condition.
pub resolve_list_total :
    (cnd name : String) (items : List String)
    → to_text name ≢ []
    → (r : String × Bool) × (resolve_list cnd name items ≡ some r)
unfolding resolve_list resolve_from
resolve_list_total cnd name items h =
    let t = to_text cnd in
    elim (Option-cases (find_from (to_text name) t 0)) [
      | inl e ↦ rw (e, resolve_list, resolve_from) (_, refl)
      | inr (start, e) ↦
          let (le, fits) = find_from-some (to_text name) t 0 start e in
          let ((t', used), q) =
            resolve_from_total (length t + 1) (to_text name) (join_values items []) t start false
              (nonempty-length (to_text name) h) fits (omega arith) in
          rw (e, q, resolve_list) (_, refl)
    ]
