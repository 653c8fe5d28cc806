-- ===== src/Wildcard/Laws.antt =====
-- The answers of `matches_wildcard`: total, sound, and complete where no literal ends the pattern.
use mathlib.Core.List.{append-nil}
use falco.Prelude.{
  ℕ, ◌≡◌, refl, sym, ap, ◌∙◌, subst, ◌≢◌, ◌↔◌, ◌⊎◌, inl, inr, Bool, true, false, [], ◌∷◌, ◌++◌,
  ==_self, ==_ne, nat_eq, string_eq, list_eq, nil-ne-cons, cons-ne-nil, All-append_right,
}
use falco.ByteString.{Bytes}
use falco.ByteString.Search.{Lacks, AllAre, FirstPlace, tails-eq, heads-eq}
use falco.Wildcard.{star, returned, matches_wildcard}
use falco.Wildcard.Greedy.{
  Greedy, plain, stars, missing, found, same, differs, Stops, matches_wildcard-Runs,
}
use falco.Wildcard.Meaning.{
  Matches, Matches-absorb, Greedy_sound, done, literal, absorb, skip, self-Matches,
}
use falco.Wildcard.Complete.{EndsStar, Greedy_complete, literal-inv, later_place}

-- Every call returns: the recursion ends within the length of the pattern, and no substr throws.
pub matches_wildcard_total :
    (pattern s : Bytes) → (b : Bool) × (matches_wildcard pattern s ≡ returned b)
matches_wildcard_total pattern s = let r = matches_wildcard-Runs pattern s in (r.result, r.returns)

returned-eq : {a b : Bool} → returned a ≡ returned b → a ≡ b
returned-eq h = cc

-- Whatever the pattern, a text that is accepted matches it.
pub matches_wildcard_sound :
    (pattern s : Bytes) → matches_wildcard pattern s ≡ returned true → Matches pattern s
matches_wildcard_sound pattern s h =
    let r = matches_wildcard-Runs pattern s in Greedy_sound r.run (returned-eq (sym r.returns ∙ h))

no_run : (p x q : Bytes) → Lacks star p → p ≡ x ++ q → AllAre star x → ¬ (x ≢ [])
no_run p [] q lacks split all ne = ne refl
no_run p (c ∷ x) q lacks split all ne = (subst (Lacks star) split lacks).0 all.0

no_star : (p w rest : Bytes) → Lacks star p → ¬ (p ≡ w ++ (star ∷ rest))
no_star p w rest lacks split =
    (All-append_right (λ d. d ≢ star) w (star ∷ rest) (subst (Lacks star) split lacks)).0 refl

nil-inv : {q s : Bytes} → Matches q s → q ≡ [] → s ≡ []
nil-inv done e = refl
nil-inv (literal {p} c d ne q m) e = absurd (cons-ne-nil c p e)
nil-inv (skip {p} c q m) e = absurd (cons-ne-nil c p e)
nil-inv (absorb {p} c d q m) e = absurd (cons-ne-nil c p e)

plain_complete : {p s : Bytes} {b : Bool} → Greedy p s b → Lacks star p → Matches p s → b ≡ true
plain_complete (plain {p} s lacks) _ m =
    let (s', at, m') =
      literal-inv p [] s lacks (subst (λ (q : Bytes). Matches q s) (sym (append-nil p)) m) in
    let e : s ≡ p = at ∙ ap (λ (t : Bytes). p ++ t) (nil-inv m' refl) ∙ append-nil p in
    rw e (==_self p)
plain_complete (stars {p} s all ne) lacks m = refl
plain_complete (missing {p} s x c w rest split all ne _ stops none_at) lacks m =
    absurd (no_run p x ((c ∷ w) ++ rest) lacks split all ne)
plain_complete (found {p} x c w rest l split all ne _ stops place run) lacks m =
    absurd (no_run p x ((c ∷ w) ++ rest) lacks split all ne)
plain_complete (same {p} c w rest s' split _ split' run) lacks m =
    absurd (no_star p (c ∷ w) rest lacks split)
plain_complete (differs {p} s c w rest split _ ne) lacks m =
    absurd (no_star p (c ∷ w) rest lacks split)

-- A pattern with no star, or with a star at its end, accepts exactly the texts that match it.
pub matches_wildcard_iff :
    (pattern s : Bytes)
    → Lacks star pattern ⊎ EndsStar pattern
    → (matches_wildcard pattern s ≡ returned true) ↔ Matches pattern s
matches_wildcard_iff pattern s shape =
    let r = matches_wildcard-Runs pattern s in
    (
      matches_wildcard_sound pattern s,
      λ m.
          r.returns
          ∙ ap returned (elim shape [
            | inl lacks ↦ plain_complete r.run lacks m
            | inr ends ↦ Greedy_complete r.run ends m
          ]),
    )

literal_alone : (w v rest : Bytes) → Lacks star w → w ≡ v ++ rest → Stops rest → w ≡ v
literal_alone w v [] lacks split stops = split ∙ append-nil v
literal_alone w v (d ∷ rest) lacks split stops =
    absurd
      ((All-append_right (λ c. c ≢ star) v (d ∷ rest) (subst (Lacks star) split lacks)).0 stops)

rest_empty : (w v rest : Bytes) → Lacks star w → w ≡ v ++ rest → Stops rest → rest ≡ []
rest_empty w v [] lacks split stops = refl
rest_empty w v (d ∷ rest) lacks split stops =
    absurd
      ((All-append_right (λ c. c ≢ star) v (d ∷ rest) (subst (Lacks star) split lacks)).0 stops)

-- The pattern is cut behind its one star.
behind_star : (w x q : Bytes) → Lacks star w → star ∷ w ≡ x ++ q → AllAre star x → x ≢ [] → w ≡ q
behind_star w [] q lacks split all ne = absurd (ne refl)
behind_star w (c ∷ []) q lacks split all ne = tails-eq star c w q split
behind_star w (c ∷ d ∷ x) q lacks split all ne =
    absurd ((subst (Lacks star) (tails-eq star c w (d ∷ (x ++ q)) split) lacks).0 all.1.0)

nil-ne-append : (x q : Bytes) → [] ≡ x ++ q → ¬ (x ≢ [])
nil-ne-append [] q e ne = ne refl
nil-ne-append (c ∷ x) q e ne = nil-ne-cons c (x ++ q) e

empty_run : {p s : Bytes} {b : Bool} → Greedy p s b → p ≡ [] → s ≢ [] → b ≡ false
empty_run (plain {p} s lacks) e ne = rw e (==_ne [] s (λ q. ne (sym q)))
empty_run (stars s all nonempty) e ne = absurd (nonempty e)
empty_run (missing s x c w rest split all nonempty lacks stops none_at) e ne = refl
empty_run (found {p} x c w rest l split all nonempty lacks stops place run) e ne =
    absurd (nil-ne-append x ((c ∷ w) ++ rest) (sym e ∙ split) nonempty)
empty_run (same c w rest s' split lacks split' run) e ne =
    absurd (nil-ne-cons c (w ++ (star ∷ rest)) (sym e ∙ split))
empty_run (differs s c w rest split lacks ne') e ne = refl

stars_lack : (w : Bytes) → AllAre star w → Lacks star w → ¬ (w ≢ [])
stars_lack [] all lacks ne = ne refl
stars_lack (c ∷ w) all lacks ne = lacks.0 all.0

longer : (t w : Bytes) → w ≢ [] → t ++ w ≢ []
longer [] w ne = ne
longer (c ∷ t) w ne = cons-ne-nil c (t ++ w)

unread :
    {needle s : Bytes} {l : ℕ} (place : FirstPlace needle s l) (u rest : Bytes)
    → s ≡ u ++ rest
    → rest ≢ []
    → needle ≡ u
    → place.after ≢ []
unread {needle} {s} place u rest e ne same_text empty =
    let (z, q) = later_place place [] rest (e ∙ ap (λ (v : Bytes). v ++ rest) (sym same_text)) in
    longer z rest ne (sym q ∙ empty)

-- The first place of the literal leaves the rest of the text unread.
late-run :
    (w t : Bytes) {p s : Bytes} {b : Bool}
    → Greedy p s b
    → p ≡ star ∷ w
    → s ≡ w ++ (t ++ w)
    → Lacks star w
    → w ≢ []
    → b ≡ false
late-run w t (plain {p} s lacks) e f lw ne = absurd ((subst (Lacks star) e lacks).0 refl)
late-run w t (stars s all _) e f lw ne = absurd (stars_lack w (subst (AllAre star) e all).1 lw ne)
late-run w t (missing s x c v rest split all _ lacks stops none_at) e f lw ne = refl
late-run w t (same c v rest s' split lacks split' run) e f lw ne =
    absurd (lacks.0 (heads-eq (sym split ∙ e)))
late-run w t (differs s c v rest split lacks _) e f lw ne = refl
late-run w t (found {s} x c v rest l split all nonempty lacks stops place run) e f lw ne =
    let q : w ≡ (c ∷ v) ++ rest =
      behind_star w x ((c ∷ v) ++ rest) lw (sym e ∙ split) all nonempty in
    let whole : w ≡ c ∷ v = literal_alone w (c ∷ v) rest lw q stops in
    empty_run run (rest_empty w (c ∷ v) rest lw q stops) (
      unread place (c ∷ v) (t ++ w) (subst (λ (u : Bytes). s ≡ u ++ (t ++ w)) whole f)
        (longer t w ne) refl)

-- A literal behind a star is compared at its first place in the text alone: where the text has it
-- at the front and again at the end, the text matches the pattern and is refused.
pub matches_wildcard_misses :
    (w t : Bytes)
    → Lacks star w
    → w ≢ []
    → (matches_wildcard (star ∷ w) (w ++ (t ++ w)) ≡ returned false)
      × Matches (star ∷ w) (w ++ (t ++ w))
matches_wildcard_misses w t lacks ne =
    let r = matches_wildcard-Runs (star ∷ w) (w ++ (t ++ w)) in
    (
      r.returns ∙ ap returned (late-run w t r.run refl refl lacks ne),
      Matches-absorb w w (t ++ w)
          (Matches-absorb t w w (skip star refl (self-Matches w w lacks refl))),
    )
