-- ===== src/Wildcard/Complete.antt =====
-- Where the greedy search misses no match, and where it does.
use mathlib.Core.Path.{ap₂}
use mathlib.Core.List.{append-nil, append_assoc}
use falco.Prelude.{
  ℕ, ◌≡◌, refl, sym, ap, ◌∙◌, subst, Bool, true, [], ◌∷◌, ◌++◌, arith, nat_eq, string_eq, list_eq,
  nil-ne-cons, length, drop, length-append,
}
use falco.ByteString.{Bytes}
use falco.ByteString.Search.{Lacks, AllAre, FirstPlace, append_cut, drop-append, tails-eq, heads-eq}
use falco.Wildcard.{star}
use falco.Wildcard.Greedy.{Greedy, plain, stars, missing, found, same, differs, Stops}
use falco.Wildcard.Meaning.{Matches, done, literal, skip, absorb, Matches-absorb}

abbrev pub EndsStar : Bytes → Type 0
EndsStar [] = ⊥
EndsStar (c ∷ []) = c ≡ star
EndsStar (c ∷ d ∷ p) = EndsStar (d ∷ p)

EndsStar-tail : (x : Bytes) (c : ℕ) (p : Bytes) → EndsStar (x ++ (c ∷ p)) → EndsStar (c ∷ p)
EndsStar-tail [] c p h = h
EndsStar-tail (a ∷ []) c p h = h
EndsStar-tail (a ∷ b ∷ x) c p h = EndsStar-tail (b ∷ x) c p h

not-EndsStar : (p : Bytes) → Lacks star p → ¬ EndsStar p
not-EndsStar [] h e = e
not-EndsStar (c ∷ []) h e = h.0 e
not-EndsStar (c ∷ d ∷ p) h e = not-EndsStar (d ∷ p) h.1 e

pub literal-inv :
    (w p s : Bytes)
    → Lacks star w
    → Matches (w ++ p) s
    → (s' : Bytes) × (s ≡ w ++ s') × Matches p s'
literal-inv [] p s h m = (s, refl, m)
literal-inv (c ∷ w) p s h (literal {s = t} a b ne e m) =
    let (s', q, m') = literal-inv w p t h.1 m in (s', ap₂ ◌∷◌ (sym e) q, m')
literal-inv (c ∷ w) p s h (skip a e m) = absurd (h.0 e)
literal-inv (c ∷ w) p s h (absorb a b e m) = absurd (h.0 e)

stars-inv :
    {q s : Bytes}
    → Matches q s
    → (x p : Bytes) → q ≡ x ++ p
    → AllAre star x
    → (u v : Bytes) × (s ≡ u ++ v) × Matches p v
stars-inv {q} {s} m [] p split h = ([], s, refl, subst (λ (t : Bytes). Matches t s) split m)
stars-inv done (c ∷ x) p split h = absurd (nil-ne-cons c (x ++ p) split)
stars-inv (literal a b ne e m) (c ∷ x) p split h = absurd (ne (heads-eq split ∙ h.0))
stars-inv (skip {p = q} a e m) (c ∷ x) p split h =
    stars-inv m x p (tails-eq a c q (x ++ p) split) h.1
stars-inv (absorb a b e m) (c ∷ x) p split h =
    let (u, v, at, m') = stars-inv m (c ∷ x) p split h in
    (b ∷ u, v, ap (λ (r : Bytes). b ∷ r) at, m')

-- A text behind the first place of a literal ends in the text behind any other place.
pub later_place :
    {needle s : Bytes} {l : ℕ} (place : FirstPlace needle s l) (u v : Bytes)
    → s ≡ u ++ (needle ++ v)
    → (z : Bytes) × (place.after ≡ z ++ v)
later_place {needle} {s} {l} place u v e =
    append_cut (place.before ++ needle) place.after (u ++ needle) v
      (append_assoc place.before needle place.after
        ∙ sym place.split
        ∙ e
        ∙ sym (append_assoc u needle v))
      (omega (
        arith,
        length-append place.before needle,
        length-append u needle,
        place.first u v e,
        place.position,
      ))

-- Behind a literal a pattern that ends in a star goes on with one.
found-Stops :
    (x : Bytes) (c : ℕ) (w rest : Bytes)
    → Lacks star (c ∷ w)
    → Stops rest
    → EndsStar (x ++ ((c ∷ w) ++ rest))
    → (rest' : Bytes) × (rest ≡ star ∷ rest') × EndsStar rest
found-Stops x c w [] lacks stops h = absurd (
    not-EndsStar (c ∷ w) lacks
      (subst EndsStar (append-nil (c ∷ w)) (EndsStar-tail x c (w ++ []) h)))
found-Stops x c w (d ∷ rest') lacks stops h = (
  rest',
  ap (λ (b : ℕ). b ∷ rest') stops,
  EndsStar-tail (c ∷ w) d rest' (EndsStar-tail x c (w ++ (d ∷ rest')) h),
)

pub Greedy_complete : {p s : Bytes} {b : Bool} → Greedy p s b → EndsStar p → Matches p s → b ≡ true
Greedy_complete (plain {p} s lacks) ends m = absurd (not-EndsStar p lacks ends)
Greedy_complete (stars s all ne) ends m = refl
Greedy_complete (missing {p} s x c w rest split all ne lacks stops none_at) ends m =
    let (u, v, at, m') = stars-inv m x ((c ∷ w) ++ rest) split all in
    let (v', at', m'') = literal-inv (c ∷ w) rest v lacks m' in
    absurd (none_at u v' (at ∙ ap (λ (t : Bytes). u ++ t) at'))
Greedy_complete (found {p} {s} x c w rest l split all ne lacks stops place run) ends m =
    let (u, v, at, m') = stars-inv m x ((c ∷ w) ++ rest) split all in
    let (v', at', m'') = literal-inv (c ∷ w) rest v lacks m' in
    let (z, at'') = later_place place u v' (at ∙ ap (λ (t : Bytes). u ++ t) at') in
    let (rest', again, ends') = found-Stops x c w rest lacks stops (subst EndsStar split ends) in
    Greedy_complete run ends' (
      subst (λ (t : Bytes). Matches t place.after) (sym again)
        (subst (λ (t : Bytes). Matches (star ∷ rest') t) (sym at'')
          (Matches-absorb z rest' v' (subst (λ (t : Bytes). Matches t v') again m''))))
Greedy_complete (same {p} {s} c w rest s' split lacks split' run) ends m =
    let (t, at, m') =
      literal-inv (c ∷ w) (star ∷ rest) s lacks (subst (λ (q : Bytes). Matches q s) split m) in
    let k : ℕ = length (c ∷ w) in
    let e : t ≡ s' =
      sym (drop-append (c ∷ w) t k refl)
      ∙ ap (drop k) (sym at ∙ split')
      ∙ drop-append (c ∷ w) s' k refl in
    Greedy_complete run (EndsStar-tail (c ∷ w) star rest (subst EndsStar split ends))
      (subst (λ (q : Bytes). Matches (star ∷ rest) q) e m')
Greedy_complete (differs {p} s c w rest split lacks ne) ends m =
    let (t, at, m') =
      literal-inv (c ∷ w) (star ∷ rest) s lacks (subst (λ (q : Bytes). Matches q s) split m) in
    absurd (ne t at)
