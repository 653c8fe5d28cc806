-- ===== src/Wildcard/Meaning.antt =====
-- What a wildcard pattern means, against what `matches_wildcard` answers.
use mathlib.Core.List.{append-nil}
use falco.Prelude.{
  ℕ, ◌≡◌, refl, sym, subst, ◌≢◌, Bool, true, [], ◌∷◌, ◌++◌, arith, nat_eq, string_eq, list_eq,
}
use mathlib.Core.Bool.{false≢true}
use falco.ByteString.{Bytes}
use falco.ByteString.Search.{Lacks, AllAre}
use falco.Wildcard.{star}
use falco.Wildcard.Greedy.{Greedy, plain, stars, missing, found, same, differs}

-- A star stands for any text, every other byte for itself.
pub data Matches : Bytes → Bytes → Type 0 where
  done : Matches [] []
  literal : {p s : Bytes} (c d : ℕ) → c ≢ star → c ≡ d → Matches p s → Matches (c ∷ p) (d ∷ s)
  skip : {p s : Bytes} (c : ℕ) → c ≡ star → Matches p s → Matches (c ∷ p) s
  absorb : {p s : Bytes} (c d : ℕ) → c ≡ star → Matches (c ∷ p) s → Matches (c ∷ p) (d ∷ s)

pub Matches-literal : (w p s : Bytes) → Lacks star w → Matches p s → Matches (w ++ p) (w ++ s)
Matches-literal [] p s h m = m
Matches-literal (c ∷ w) p s h m = literal c c h.0 refl (Matches-literal w p s h.1 m)

pub Matches-absorb : (u p s : Bytes) → Matches (star ∷ p) s → Matches (star ∷ p) (u ++ s)
Matches-absorb [] p s m = m
Matches-absorb (d ∷ u) p s m = absorb star d refl (Matches-absorb u p s m)

Matches-stars : (x p s : Bytes) → AllAre star x → Matches p s → Matches (x ++ p) s
Matches-stars [] p s h m = m
Matches-stars (c ∷ x) p s h m = skip c h.0 (Matches-stars x p s h.1 m)

-- A run of stars in front of a pattern matches whatever stands before the match.
Matches-stars-absorb :
    (x p u s : Bytes) → AllAre star x → x ≢ [] → Matches p s → Matches (x ++ p) (u ++ s)
Matches-stars-absorb [] p u s h ne m = absurd (ne refl)
Matches-stars-absorb (c ∷ x) p u s h ne m =
    subst (λ (b : ℕ). Matches (b ∷ (x ++ p)) (u ++ s)) (sym h.0)
      (Matches-absorb u (x ++ p) s (skip star refl (Matches-stars x p s h.1 m)))

stars-Matches : (p s : Bytes) → AllAre star p → p ≢ [] → Matches p s
stars-Matches p s h ne =
    subst (λ (q : Bytes). Matches q s) (append-nil p)
      (subst (λ (t : Bytes). Matches (p ++ []) t) (append-nil s)
        (Matches-stars-absorb p [] s [] h ne done))

pub self-Matches : (p s : Bytes) → Lacks star p → p ≡ s → Matches p s
self-Matches p s h e =
    subst (λ (t : Bytes). Matches p t) e
      (subst (λ (t : Bytes). Matches t t) (append-nil p) (Matches-literal p [] [] h done))

-- A run that answers true has matched.
pub Greedy_sound : {p s : Bytes} {b : Bool} → Greedy p s b → b ≡ true → Matches p s
Greedy_sound (plain {p} s lacks) e = self-Matches p s lacks (ground arith)
Greedy_sound (stars {p} s all ne) e = stars-Matches p s all ne
Greedy_sound (missing s x c w rest split all ne lacks stops none_at) e = absurd (false≢true e)
Greedy_sound (found {p} {s} x c w rest l split all ne lacks stops place run) e =
    subst (λ (t : Bytes). Matches t s) (sym split)
      (subst (λ (t : Bytes). Matches (x ++ ((c ∷ w) ++ rest)) t) (sym place.split)
        (Matches-stars-absorb x ((c ∷ w) ++ rest) place.before ((c ∷ w) ++ place.after) all ne
          (Matches-literal (c ∷ w) rest place.after lacks (Greedy_sound run e))))
Greedy_sound (same {p} {s} c w rest s' split lacks split' run) e =
    subst (λ (t : Bytes). Matches t s) (sym split)
      (subst (λ (t : Bytes). Matches ((c ∷ w) ++ (star ∷ rest)) t) (sym split')
        (Matches-literal (c ∷ w) (star ∷ rest) s' lacks (Greedy_sound run e)))
Greedy_sound (differs s c w rest split lacks ne) e = absurd (false≢true e)
