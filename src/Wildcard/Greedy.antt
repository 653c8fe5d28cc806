-- ===== src/Wildcard/Greedy.antt =====
-- The run of `matches_wildcard` as a derivation: how the pattern and the text are cut at each call.
use falco.Prelude.{
  ℕ, zero, suc, ◌+◌, ◌≤◌, ◌<◌, ◌≡◌, refl, sym, ap, ◌∙◌, subst, ◌≢◌, inl, inr, Bool, true, false,
  Option, some, [], ◌∷◌, ◌++◌, arith, Option-cases, ◌==◌, ==_cases, nat_eq, string_eq, list_eq,
  cons-ne-nil, length, take, drop, length-append, take-append-drop,
}
use mathlib.Core.List.{append-nil, append_assoc}
use falco.ByteString.{Bytes, find_char, find_first_not_of, find, substr_from, prefix_to}
use falco.ByteString.Search.{
  Lacks, AllAre, FirstChar, FirstOther, FirstPlace, find_char-none, find_char-some,
  find_first_not_of-none, find_first_not_of-some, find-some, find-none, take-append,
  substr_from-append,
}
use falco.Wildcard.{
  star, Outcome, returned, call, match_literal, match_found, match_star, match_prefix,
  match_fuel_step, match_fuel, matches_wildcard,
}

-- What stands behind a literal: nothing, or a star.
abbrev pub Stops : Bytes → Type 0
Stops [] = Unit
Stops (c ∷ s) = c ≡ star

pub data Greedy : Bytes → Bytes → Bool → Type 0 where
  plain : {p : Bytes} (s : Bytes) → Lacks star p → Greedy p s (p == s)
  stars : {p : Bytes} (s : Bytes) → AllAre star p → p ≢ [] → Greedy p s true
  missing :
      {p : Bytes} (s x : Bytes) (c : ℕ) (w rest : Bytes)
      → p ≡ x ++ ((c ∷ w) ++ rest)
      → AllAre star x
      → x ≢ []
      → Lacks star (c ∷ w)
      → Stops rest
      → ((u v : Bytes) → s ≢ u ++ ((c ∷ w) ++ v))
      → Greedy p s false
  found :
      {p s : Bytes} {b : Bool} (x : Bytes) (c : ℕ) (w rest : Bytes) (l : ℕ)
      → p ≡ x ++ ((c ∷ w) ++ rest)
      → AllAre star x
      → x ≢ []
      → Lacks star (c ∷ w)
      → Stops rest
      → (place : FirstPlace (c ∷ w) s l) → Greedy rest place.after b
      → Greedy p s b
  same :
      {p s : Bytes} {b : Bool} (c : ℕ) (w rest s' : Bytes)
      → p ≡ (c ∷ w) ++ (star ∷ rest)
      → Lacks star (c ∷ w)
      → s ≡ (c ∷ w) ++ s'
      → Greedy (star ∷ rest) s' b
      → Greedy p s b
  differs :
      {p : Bytes} (s : Bytes) (c : ℕ) (w rest : Bytes)
      → p ≡ (c ∷ w) ++ (star ∷ rest)
      → Lacks star (c ∷ w)
      → ((s' : Bytes) → s ≢ (c ∷ w) ++ s')
      → Greedy p s false

-- The outcome of a call, with its derivation.
pub record Runs (o : Outcome) (p s : Bytes) : Type 0 where
  pub result : Bool
  pub returns : o ≡ returned result
  pub run : Greedy p s result

-- The literal that `prefix_to` cuts off, for a pattern that does not begin with a star.
pub record Literal (q : Bytes) : Type 0 where
  pub w : Bytes
  pub rest : Bytes
  pub split : q ≡ w ++ rest
  pub lacks : Lacks star w
  pub stops : Stops rest
  pub cut : prefix_to (find_char star q) q ≡ w

literal : (q : Bytes) → Literal q
unfolding prefix_to
literal q = elim (Option-cases (find_char star q)) [
  | inl e ↦ record {
    w = q;
    rest = [];
    split = sym (append-nil q);
    lacks = find_char-none star q e;
    stops = tt;
    cut = rw (e, prefix_to) refl;
  }
  | inr (n, e) ↦
      let f : FirstChar star q n = find_char-some star q n e in
      record {
        w = f.before;
        rest = star ∷ f.after;
        split = f.split;
        lacks = f.lacks;
        stops = refl;
        cut =
            rw (e, prefix_to)
              (subst (λ (t : Bytes). take n t ≡ f.before) (sym f.split)
                (take-append f.before (star ∷ f.after) n f.position));
      }
]

call_lem :
    (f : Bytes → Bytes → Outcome) {o o' : Option Bytes} {p s : Bytes}
    → o ≡ some p
    → o' ≡ some s
    → call f o o' ≡ f p s
call_lem f e e' = rw (e, e') refl

substr_from-place :
    {needle s : Bytes} {l : ℕ} (place : FirstPlace needle s l)
    → substr_from (l + length needle) s ≡ some place.after
substr_from-place {needle} {s} {l} place =
    rw (place.split, ← append_assoc place.before needle place.after)
      (substr_from-append (place.before ++ needle) place.after (l + length needle)
        (omega (arith, length-append place.before needle, place.position)))

rest-shorter :
    (x : Bytes) (c : ℕ) (w rest p q : Bytes) {bound : ℕ}
    → q ≡ (c ∷ w) ++ rest
    → p ≡ x ++ q
    → length p ≤ bound
    → length rest < bound
rest-shorter x c w rest p q split outer short =
    omega (
      arith,
      ap length outer,
      ap length split,
      length-append x q,
      length-append (c ∷ w) rest,
      short,
    )

-- A literal is empty only before a star.
starts-star : (q : Bytes) (c : ℕ) (t : Bytes) → q ≡ c ∷ t → (k : Literal q) → k.w ≡ [] → c ≡ star
starts-star q c t shape k e =
    go k.rest (sym shape ∙ k.split ∙ ap (λ (u : Bytes). u ++ k.rest) e) k.stops
  where
    go : (r : Bytes) → c ∷ t ≡ r → Stops r → c ≡ star
    go [] p h = absurd (cons-ne-nil c t p)
    go (d ∷ r) p h = cc

run-nonempty :
    (x : Bytes) (h : ℕ) (r : Bytes) (c : ℕ) (t : Bytes)
    → c ∷ t ≡ x ++ (h ∷ r)
    → c ≡ star
    → h ≢ star
    → x ≢ []
run-nonempty [] h r c t p e ne = absurd (ne (cc))
run-nonempty (d ∷ x) h r c t p e ne = cons-ne-nil d x

-- The parts of a run on shorter patterns, which `matches` is.
module _ (matches : Bytes → Bytes → Outcome) (bound : ℕ)
    (rec : (p s : Bytes) → length p < bound → Runs (matches p s) p s) where
  prefix-Runs :
      (c : ℕ) (w after p s : Bytes) (k : ℕ)
      → p ≡ (c ∷ w) ++ (star ∷ after)
      → Lacks star (c ∷ w)
      → length (c ∷ w) ≡ k
      → length p ≤ bound
      → Runs (match_prefix matches k p s) p s
  unfolding match_prefix
  prefix-Runs c w after p s k split lacks e short =
      let cut : take k p ≡ c ∷ w = rw split (take-append (c ∷ w) (star ∷ after) k e) in
      elim (==_cases (take k p) (take k s)) [
        | inl (t, q) ↦
            let s_split : s ≡ (c ∷ w) ++ drop k s =
              sym (take-append-drop k s) ∙ ap (λ (x : Bytes). x ++ drop k s) (sym q ∙ cut) in
            let right : substr_from k s ≡ some (drop k s) =
              subst (λ (x : Bytes). substr_from k x ≡ some (drop k s)) (sym s_split)
                (substr_from-append (c ∷ w) (drop k s) k e) in
            let r : Runs (matches (star ∷ after) (drop k s)) (star ∷ after) (drop k s) =
              rec (star ∷ after) (drop k s)
                (omega (arith, ap length split, length-append (c ∷ w) (star ∷ after), short)) in
            record {
              result = r.result;
              returns =
                  rw (t, match_prefix)
                    (call_lem matches (rw split (substr_from-append (c ∷ w) (star ∷ after) k e))
                        right
                      ∙ r.returns);
              run = same c w after (drop k s) split lacks s_split r.run;
            }
        | inr (t, ne) ↦ record {
          result = false;
          returns = rw (t, match_prefix) refl;
          run =
              differs s c w after split lacks
                (λ s' q. ne (cut ∙ sym (rw q (take-append (c ∷ w) s' k e))));
        }
      ]

  found-Runs :
      (x : Bytes) (c : ℕ) (w rest p s q : Bytes)
      → q ≡ (c ∷ w) ++ rest
      → p ≡ x ++ q
      → AllAre star x
      → x ≢ []
      → Lacks star (c ∷ w)
      → Stops rest
      → length p ≤ bound
      → Runs (match_found matches (c ∷ w) q s) p s
  unfolding match_found
  found-Runs x c w rest p s q split outer all nonempty lacks stops short =
      let whole : p ≡ x ++ ((c ∷ w) ++ rest) = outer ∙ ap (λ (t : Bytes). x ++ t) split in
      elim (Option-cases (find (c ∷ w) s)) [
        | inl e ↦ record {
          result = false;
          returns = rw (e, match_found) refl;
          run = missing s x c w rest whole all nonempty lacks stops (find-none (c ∷ w) s e);
        }
        | inr (l, e) ↦
            let place : FirstPlace (c ∷ w) s l = find-some (c ∷ w) s l e in
            let r : Runs (matches rest place.after) rest place.after =
              rec rest place.after (rest-shorter x c w rest p q split outer short) in
            record {
              result = r.result;
              returns =
                  rw (e, match_found)
                    (call_lem matches (rw split (substr_from-append (c ∷ w) rest _ refl))
                        (substr_from-place place)
                      ∙ r.returns);
              run = found x c w rest l whole all nonempty lacks stops place r.run;
            }
      ]

  Literal-Runs :
      (x p s q : Bytes) (c : ℕ) (t : Bytes)
      → q ≡ c ∷ t
      → c ≢ star
      → p ≡ x ++ q
      → AllAre star x
      → x ≢ []
      → length p ≤ bound
      → (w : Bytes) → (k : Literal q) → k.w ≡ w
      → Runs (match_literal matches (some q) s) p s
  unfolding match_literal
  Literal-Runs x p s q c t shape other outer all nonempty short [] k e =
      absurd (other (starts-star q c t shape k e))
  Literal-Runs x p s q c t shape other outer all nonempty short (d ∷ w) k e =
      rw (k.cut ∙ e, match_literal)
        (found-Runs x d w k.rest p s q (k.split ∙ ap (λ (u : Bytes). u ++ k.rest) e) outer all
          nonempty (subst (Lacks star) e k.lacks) k.stops short)

  star-Runs :
      (c : ℕ) (t p s : Bytes)
      → p ≡ c ∷ t
      → c ≡ star
      → length p ≤ bound
      → Runs (match_star matches p s) p s
  unfolding match_star
  star-Runs c t p s shape e short = elim (Option-cases (find_first_not_of star p)) [
    | inl q ↦ record {
      result = true;
      returns = rw (q, match_star) refl;
      run = stars s (find_first_not_of-none star p q) (λ r. cons-ne-nil c t (sym shape ∙ r));
    }
    | inr (n, q) ↦
        let f : FirstOther star p n = find_first_not_of-some star p n q in
        rw (q, match_star)
          (subst (λ (o : Option Bytes). Runs (match_literal matches o s) p s)
            (sym (rw f.split (substr_from-append f.before (f.head ∷ f.after) n f.position)))
            (Literal-Runs f.before p s (f.head ∷ f.after) f.head f.after refl f.other f.split f.run
              (run-nonempty f.before f.head f.after c t (sym shape ∙ f.split) e f.other) short
              (literal (f.head ∷ f.after)).w (literal (f.head ∷ f.after)) refl))
  ]

  -- The branch on the position of the first star.
  starred-Runs :
      (n : ℕ) (p s : Bytes)
      → FirstChar star p n
      → length p ≤ bound
      → find_char star p ≡ some n
      → Runs (match_fuel_step matches p s) p s
  unfolding match_fuel_step
  starred-Runs n p s f short e = go n f.before f.split f.lacks f.position e
    where
      go :
          (k : ℕ) (x : Bytes)
          → p ≡ x ++ (star ∷ f.after)
          → Lacks star x
          → length x ≡ k
          → find_char star p ≡ some k
          → Runs (match_fuel_step matches p s) p s
      go zero [] split lacks at cut =
          rw (cut, match_fuel_step) (star-Runs star f.after p s split refl short)
      go zero (c ∷ x) split lacks at cut = absurd (omega arith)
      go (suc k) [] split lacks at cut = absurd (omega arith)
      go (suc k) (c ∷ x) split lacks at cut =
          rw (cut, match_fuel_step) (prefix-Runs c x f.after p s (suc k) split lacks at short)

  step-Runs : (p s : Bytes) → length p ≤ bound → Runs (match_fuel_step matches p s) p s
  unfolding match_fuel_step
  step-Runs p s short = elim (Option-cases (find_char star p)) [
    | inl e ↦ record {
      result = p == s;
      returns = rw (e, match_fuel_step) refl;
      run = plain s (find_char-none star p e);
    }
    | inr (n, e) ↦ starred-Runs n p s (find_char-some star p n e) short e
  ]

match_fuel-Runs : (fuel : ℕ) (p s : Bytes) → length p < fuel → Runs (match_fuel fuel p s) p s
unfolding match_fuel
match_fuel-Runs zero p s h = absurd (omega arith)
match_fuel-Runs (suc fuel) p s h =
    step-Runs (match_fuel fuel) fuel (match_fuel-Runs fuel) p s (omega arith)

-- The search returns: no `substr` throws and the calls end. Its answer has a derivation.
pub matches_wildcard-Runs : (p s : Bytes) → Runs (matches_wildcard p s) p s
unfolding matches_wildcard
matches_wildcard-Runs p s = match_fuel-Runs (suc (length p)) p s (omega arith)
