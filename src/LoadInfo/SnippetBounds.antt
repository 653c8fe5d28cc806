-- ===== src/LoadInfo/SnippetBounds.antt =====
-- userspace/engine/rule_loader.cpp: what a snippet reads is in range, and a snippet is short.
use falco.Prelude.{
  ℕ, zero, suc, ◌+◌, ◌-◌, ◌*◌, ◌/◌, ◌%◌, ◌^◌, ◌≤◌, ◌<◌, ◌≡◌, refl, sym, ap, ◌∙◌, inl, inr, Bool,
  true, false, not, ◌&&◌, ◌||◌, some, [], ◌∷◌, ◌++◌, arith, ℕ_discrete, ltb, leb, leb→le,
  Bool-cases, nat_eq, string_eq, list_eq, length, replicate, take, drop, length-append,
}
use falco.Prelude.{length-take, length-drop, length-replicate, ◌>>=◌}
use mathlib.Core.Bool.{true≢false}
use falco.ByteString.{Bytes}
use falco.LoadInfo.Snippet.{
  sub_64, is_newline, move_to_text, walk_back, walk_forward, substr, put_dots, dots_before,
  dots_after, add_marker, mark_line, first_place, last_place, snippet_of,
}

move_to_text-lem :
    (s : Bytes) (p : ℕ)
    → 0 < length s
    → is_newline s 0 ≡ false
    → (move_to_text s p < length s) × (is_newline s (move_to_text s p) ≡ false)
unfolding move_to_text
move_to_text-lem s zero n e = (n, e)
move_to_text-lem s (suc p) n e =
    elim (Bool-cases (leb (length s) (suc p) || is_newline s (suc p))) [
      | inl q ↦ rw (q, move_to_text) (move_to_text-lem s p n e)
      | inr q ↦ rw (q, move_to_text) (ground (arith, q))
    ]

walk_back-lem :
    (s : Bytes) (half place from : ℕ)
    → from ≤ place
    → place ≤ from + half
    → (walk_back s half place from ≤ from) × (place ≤ walk_back s half place from + half)
unfolding walk_back
walk_back-lem s half place zero le near = (omega arith, near)
walk_back-lem s half place (suc from) le near =
    elim (Bool-cases (not (is_newline s (suc from)) && ltb (place - suc from) half)) [
      | inl q ↦
          let (a, b) = walk_back-lem s half place from (omega (arith, le)) (ground arith) in
          rw (q, walk_back) (omega (arith, a), b)
      | inr q ↦ rw (q, walk_back) (omega arith, near)
    ]

walk_forward-lem :
    (s : Bytes) (half place turns to : ℕ)
    → place ≤ to
    → to ≤ place + half
    → (to ≤ walk_forward s half place turns to)
      × (walk_forward s half place turns to ≤ to + turns)
      × (walk_forward s half place turns to ≤ place + half)
unfolding walk_forward
walk_forward-lem s half place zero to le near = (omega arith, omega arith, near)
walk_forward-lem s half place (suc turns) to le near =
    elim (Bool-cases (not (is_newline s to) && ltb (to - place) half)) [
      | inl q ↦
          let (a, b, c) =
            walk_forward-lem s half place turns (to + 1) (omega (arith, le)) (ground arith) in
          rw (q, walk_forward) (omega (arith, a), omega (arith, b), c)
      | inr q ↦ rw (q, walk_forward) (omega arith, omega arith, near)
    ]

sub_64-le : (a b : ℕ) → b ≤ a → a < 2 ^ 64 → sub_64 a b ≡ a - b
sub_64-le a b le lt = omega (arith, le, lt)

put_dots-length :
    (from : ℕ) (s : Bytes)
    → from + 3 ≤ length s
    → (r : Bytes) × (put_dots from s ≡ some r) × (length r ≡ length s)
unfolding put_dots
put_dots-length from s le = elim (Bool-cases (ltb (length s) from)) [
  | inl q ↦ absurd (ground (arith, q))
  | inr q ↦
      let l = take from s in
      let r = drop (from + 3) s in
      let dots : Bytes = 46 ∷ 46 ∷ 46 ∷ [] in
      rw (q, put_dots)
        (
          l ++ dots ++ r,
          refl,
          omega (
            arith,
            le,
            length-take from s (omega (arith, le)),
            length-drop (from + 3) s,
            length-append l dots,
            length-append (l ++ dots) r,
            length-append l (dots ++ r),
          ),
        )
]

module _ (half place from to : ℕ) (big : 3 ≤ half) (lower : from ≤ place) (upper : place ≤ to)
    (small : to < 2 ^ 63) where
  dots_before-length :
      (s : Bytes)
      → length s ≡ to - from + 1
      → (r : Bytes) × (dots_before half place from s ≡ some r) × (length r ≡ length s)
  unfolding dots_before
  dots_before-length s n =
      let d = sub_64-le place from lower (omega (arith, upper, small)) in
      elim (Bool-cases (leb half (sub_64 place from))) [
        | inr q ↦ rw (q, dots_before) (s, refl, refl)
        | inl q ↦
            rw (q, dots_before)
              (put_dots-length 0 s (omega (arith, n, d, leb→le _ _ q, big, upper)))
      ]

  dots_after-length :
      (s : Bytes)
      → length s ≡ to - from + 1
      → (r : Bytes) × (dots_after half place to s ≡ some r) × (length r ≡ length s)
  unfolding dots_after
  dots_after-length s n =
      let d = sub_64-le to place upper (omega (arith, small)) in
      elim (Bool-cases (leb half (sub_64 to place))) [
        | inr q ↦ rw (q, dots_after) (s, refl, refl)
        | inl q ↦
            let le = leb→le half (sub_64 to place) q in
            let k =
              sub_64-le (length s) 3 (omega (arith, n, d, le, big, lower))
                (omega (arith, n, small)) in
            rw (q, dots_after)
              (put_dots-length (sub_64 (length s) 3) s (omega (arith, k, n, d, le, big, lower)))
      ]

  add_marker-length : (s : Bytes) → length (add_marker place from s) ≤ length s + (place - from) + 3
  unfolding add_marker
  add_marker-length s =
      let d = sub_64-le place from lower (omega (arith, upper, small)) in
      let line = s ++ 10 ∷ [] in
      let n = length-append s (10 ∷ []) in
      elim (Bool-cases (leb (sub_64 place from) (length line - 1))) [
        | inr q ↦ rw (q, add_marker) (omega (arith, n))
        | inl q ↦
            let blanks : Bytes = replicate (sub_64 place from) 32 in
            rw (q, add_marker)
              (omega (
                arith,
                n,
                d,
                length-append line (blanks ++ (94 ∷ 10 ∷ [])),
                length-append (line ++ blanks) (94 ∷ 10 ∷ []),
                length-append line blanks,
                length-append blanks (94 ∷ 10 ∷ []),
                length-replicate {A = ℕ} (sub_64 place from) 32,
              ))
      ]

  mark_line-length :
      (s : Bytes)
      → length s ≡ to - from + 1
      → (r : Bytes) × (mark_line half place from to s ≡ some r)
        × (length r ≤ (to - from) + (place - from) + 4)
  unfolding mark_line
  mark_line-length [] n = absurd (omega (arith, n))
  mark_line-length (c ∷ s) n =
      let (b, bs, bn) = dots_before-length (c ∷ s) n in
      let (a, as_some, an) = dots_after-length b (bn ∙ n) in
      rw (bs, as_some)
        (add_marker place from a, refl, omega (arith, add_marker-length a, an, bn, n))

  line-IsShort :
      (s : Bytes)
      → to < length s
      → length s < 2 ^ 63
      → place ≤ from + half
      → to ≤ place + half
      → (r : Bytes) × ((substr from ((sub_64 to from + 1) % 2 ^ 64) s >>= λ line.
            mark_line half place from to line)
          ≡ some r)
        × (length r ≤ 3 * half + 4)
  line-IsShort s lt n near far =
      let d = sub_64-le to from (omega (arith, lower, upper)) (omega (arith, small)) in
      let size : (sub_64 to from + 1) % 2 ^ 64 ≡ to - from + 1 = omega (arith, d, small) in
      let line = take (to - from + 1) (drop from s) in
      let m =
        length-take (to - from + 1) (drop from s)
          (omega (arith, length-drop from s, lower, upper, lt)) in
      let (r, rs, rn) = mark_line-length line m in
      elim (Bool-cases (ltb (length s) from)) [
        | inl q ↦ absurd (ground (arith, q))
        | inr q ↦ rw (q, size) (r, rs, omega (arith, rn, near, far))
      ]

and_right : (a b : Bool) → (a && b) ≡ true → b ≡ true
and_right a b h = ground arith

-- A newline is not where the text is.
ahead : (i j : ℕ) (s : Bytes) → i ≤ j → is_newline s i ≡ true → is_newline s j ≡ false → i < j
ahead i j s le a b = elim (ℕ_discrete i j) [
  | yes p ↦ absurd (true≢false (sym a ∙ ap (is_newline s) p ∙ b))
  | no p ↦ omega (arith, p, le)
]

ahead_of : (i j : ℕ) (s : Bytes) → i ≤ j → is_newline s i ≡ false → is_newline s j ≡ true → i < j
ahead_of i j s le a b = elim (ℕ_discrete i j) [
  | yes p ↦ absurd (true≢false (sym b ∙ ap (is_newline s) (sym p) ∙ a))
  | no p ↦ omega (arith, p, le)
]

-- The ends of the snippet stand around its place, and are read in range.
first_place-lem :
    (s : Bytes) (from place : ℕ)
    → from ≤ place
    → is_newline s place ≡ false
    → (from ≤ first_place s from) × (first_place s from ≤ place)
first_place-lem s from place le e = elim (Bool-cases (ltb from (length s) && is_newline s from)) [
  | inr q ↦ rw q (omega arith, le)
  | inl q ↦
      let lt = ahead from place s le (and_right (ltb from (length s)) (is_newline s from) q) e in
      rw q (omega arith, omega (arith, lt))
]

last_place-lem :
    (s : Bytes) (to place : ℕ)
    → place ≤ to
    → to < 2 ^ 63
    → is_newline s place ≡ false
    → (place ≤ last_place s to) × (last_place s to ≤ to)
last_place-lem s to place le b e = elim (Bool-cases (ltb to (length s) && is_newline s to)) [
  | inr q ↦ rw q (le, omega arith)
  | inl q ↦
      let lt = ahead_of place to s le e (and_right (ltb to (length s)) (is_newline s to) q) in
      let d = sub_64-le to 1 (omega (arith, lt)) (omega (arith, b)) in
      rw q (omega (arith, lt, d), omega (arith, d))
]

-- For a width of at least 6, a content that is not empty, is shorter than 2 ^ 63 bytes and does not start
-- with a newline has a snippet, wherever its place is, and the snippet is at most 4 characters longer
-- than three times the half of the width.
pub snippet_of-IsShort :
    (content : Bytes) (place snippet_width : ℕ)
    → 6 ≤ snippet_width
    → 0 < length content
    → length content < 2 ^ 63
    → is_newline content 0 ≡ false
    → (r : Bytes) × (snippet_of content place snippet_width ≡ some r)
      × (length r ≤ 3 * (snippet_width / 2) + 4)
unfolding snippet_of
snippet_of-IsShort [] place snippet_width w p n e = absurd (omega (arith, p))
snippet_of-IsShort (c ∷ s) place snippet_width w p n e =
    let half = snippet_width / 2 in
    let (in_range, text) = move_to_text-lem (c ∷ s) place p e in
    let t = move_to_text (c ∷ s) place in
    let (bl, bh) = walk_back-lem (c ∷ s) half t t (omega arith) (omega arith) in
    let (fl, fr, fh) =
      walk_forward-lem (c ∷ s) half t (length s - t) t (omega arith) (omega arith) in
    let (f1, f2) = first_place-lem (c ∷ s) (walk_back (c ∷ s) half t t) t bl text in
    let (l1, l2) =
      last_place-lem (c ∷ s) (walk_forward (c ∷ s) half t (length s - t) t) t fl
        (omega (arith, fr, in_range, n)) text in
    line-IsShort half t _ _ (omega (arith, w)) f2 l1 (omega (arith, l2, fr, in_range, n)) (c ∷ s)
      (omega (arith, l2, fr, in_range)) n (omega (arith, bh, f1)) (omega (arith, l2, fh))
