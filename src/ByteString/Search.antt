-- ===== src/ByteString/Search.antt =====
-- What the searches find, in terms of how the text is put together.
use mathlib.Core.Option
use mathlib.Core.Option.{none-ne-some, some-injective}
use mathlib.Core.Bool.{false≢true}
use mathlib.Core.Path.{ap₂}
use falco.Prelude.{
  ℕ, suc, ◌≤◌, ◌≡◌, refl, sym, ap, ◌∙◌, subst, ◌≢◌, inl, inr, true, false, Option, none, some, List,
  [], ◌∷◌, ◌++◌, arith, Bool-cases, ==_cases, nat_eq, string_eq, list_eq, nil-ne-cons, le→leb,
  length, take, drop, length-append, All,
}
use falco.ByteString.{Bytes, starts_with, find_char, find_first_not_of, find, substr_from}

-- The text has a byte nowhere.
abbrev pub Lacks : ℕ → Bytes → Type 0
Lacks c = All (λ d. d ≢ c)

abbrev pub AllAre : ℕ → Bytes → Type 0
AllAre c = All (λ d. d ≡ c)

pub record FirstChar (c : ℕ) (s : Bytes) (n : ℕ) : Type 0 where
  pub before : Bytes
  pub after : Bytes
  pub split : s ≡ before ++ c ∷ after
  pub lacks : Lacks c before
  pub position : length before ≡ n

-- A search that goes on behind the first byte.
map-suc-eq_some :
    (o : Option ℕ) (n : ℕ) → Option.map suc o ≡ some n → (m : ℕ) × (o ≡ some m) × (suc m ≡ n)
map-suc-eq_some none n h = absurd (none-ne-some n h)
map-suc-eq_some (some m) n h = (m, refl, some-injective (suc m) n h)

pub find_char-none : (c : ℕ) (s : Bytes) → find_char c s ≡ none → Lacks c s
unfolding find_char
find_char-none c [] h = tt
find_char-none c (d ∷ s) h = ground (arith, find_char-none c s)

pub find_char-some : (c : ℕ) (s : Bytes) (n : ℕ) → find_char c s ≡ some n → FirstChar c s n
unfolding find_char
find_char-some c [] n h = absurd (cc)
find_char-some c (d ∷ s) n h = elim (==_cases d c) [
  | inl (t, p) ↦ record {
    before = [];
    after = s;
    split = ap (λ (x : ℕ). x ∷ s) p;
    lacks = tt;
    position = ground arith;
  }
  | inr (t, p) ↦
      let (m, e, q) = map-suc-eq_some (find_char c s) n (rw t at h) in
      let f : FirstChar c s m = find_char-some c s m e in
      record {
        before = d ∷ f.before;
        after = f.after;
        split = ap (λ (x : Bytes). d ∷ x) f.split;
        lacks = (p, f.lacks);
        position = ap suc f.position ∙ q;
      }
]

map-suc-eq_none : (o : Option ℕ) → Option.map suc o ≡ none → o ≡ none
map-suc-eq_none none h = refl
map-suc-eq_none (some m) h = absurd (none-ne-some (suc m) (sym h))

-- A run of a byte, and what stands behind it.
pub record FirstOther (c : ℕ) (s : Bytes) (n : ℕ) : Type 0 where
  pub before : Bytes
  pub head : ℕ
  pub after : Bytes
  pub split : s ≡ before ++ head ∷ after
  pub run : AllAre c before
  pub other : head ≢ c
  pub position : length before ≡ n

pub find_first_not_of-none : (c : ℕ) (s : Bytes) → find_first_not_of c s ≡ none → AllAre c s
unfolding find_first_not_of
find_first_not_of-none c [] h = tt
find_first_not_of-none c (d ∷ s) h = ground (arith, find_first_not_of-none c s)

pub find_first_not_of-some :
    (c : ℕ) (s : Bytes) (n : ℕ) → find_first_not_of c s ≡ some n → FirstOther c s n
unfolding find_first_not_of
find_first_not_of-some c [] n h = absurd (none-ne-some n h)
find_first_not_of-some c (d ∷ s) n h = elim (==_cases d c) [
  | inr (t, p) ↦ record {
    before = [];
    head = d;
    after = s;
    split = refl;
    run = tt;
    other = p;
    position = ground arith;
  }
  | inl (t, p) ↦
      let (m, e, q) = map-suc-eq_some (find_first_not_of c s) n (rw t at h) in
      let f : FirstOther c s m = find_first_not_of-some c s m e in
      record {
        before = d ∷ f.before;
        head = f.head;
        after = f.after;
        split = ap (λ (x : Bytes). d ∷ x) f.split;
        run = (p, f.run);
        other = f.other;
        position = ap suc f.position ∙ q;
      }
]

pub starts_with-split : (p s : Bytes) → starts_with p s ≡ true → (rest : Bytes) × (s ≡ p ++ rest)
unfolding starts_with
starts_with-split [] s h = (s, refl)
starts_with-split (c ∷ p) [] h = absurd (false≢true h)
starts_with-split (c ∷ p) (d ∷ s) h = elim (==_cases c d) [
  | inl (t, e) ↦ let (rest, q) = starts_with-split p s (rw t at h) in (rest, ap₂ ◌∷◌ (sym e) q)
  | inr (t, e) ↦ absurd (false≢true (rw t at h))
]

pub starts_with-append : (p rest : Bytes) → starts_with p (p ++ rest) ≡ true
unfolding starts_with
starts_with-append [] rest = refl
starts_with-append (c ∷ p) rest = ground (arith, starts_with-append p rest)

-- Where a needle is found, and that it stands nowhere before.
pub record FirstPlace (needle s : Bytes) (n : ℕ) : Type 0 where
  pub before : Bytes
  pub after : Bytes
  pub split : s ≡ before ++ (needle ++ after)
  pub position : length before ≡ n
  pub first : (x y : Bytes) → s ≡ x ++ (needle ++ y) → n ≤ length x

not-starts_with : (needle s y : Bytes) → starts_with needle s ≡ false → s ≢ needle ++ y
not-starts_with needle s y h e =
    false≢true (sym h ∙ ap (starts_with needle) e ∙ starts_with-append needle y)

pub tails-eq {ℓ} : {A : Type ℓ} (c d : A) (s t : List A) → c ∷ s ≡ d ∷ t → s ≡ t
tails-eq c d s t h = cc

pub heads-eq {ℓ} : {A : Type ℓ} {c d : A} {s t : List A} → c ∷ s ≡ d ∷ t → c ≡ d
heads-eq h = cc

place-suc :
    (needle : Bytes) (c : ℕ) (s : Bytes) (m : ℕ)
    → starts_with needle (c ∷ s) ≡ false
    → ((x y : Bytes) → s ≡ x ++ (needle ++ y) → m ≤ length x)
    → (x y : Bytes) → c ∷ s ≡ x ++ (needle ++ y)
    → suc m ≤ length x
place-suc needle c s m h first [] y e = absurd (not-starts_with needle (c ∷ s) y h e)
place-suc needle c s m h first (d ∷ x) y e =
    omega (arith, first x y (tails-eq c d s (x ++ (needle ++ y)) e))

pub find-some : (needle s : Bytes) (n : ℕ) → find needle s ≡ some n → FirstPlace needle s n
unfolding find
find-some needle [] n h = elim (Bool-cases (starts_with needle [])) [
  | inl t ↦
      let (rest, q) = starts_with-split needle [] t in
      record {
        before = [];
        after = rest;
        split = q;
        position = some-injective 0 n (rw t at h);
        first = λ x y e. omega (arith, some-injective 0 n (rw t at h));
      }
  | inr t ↦ absurd (none-ne-some n (rw t at h))
]
find-some needle (c ∷ s) n h = elim (Bool-cases (starts_with needle (c ∷ s))) [
  | inl t ↦
      let (rest, q) = starts_with-split needle (c ∷ s) t in
      record {
        before = [];
        after = rest;
        split = q;
        position = some-injective 0 n (rw t at h);
        first = λ x y e. omega (arith, some-injective 0 n (rw t at h));
      }
  | inr t ↦
      let (m, e, q) = map-suc-eq_some (find needle s) n (rw t at h) in
      let f : FirstPlace needle s m = find-some needle s m e in
      record {
        before = c ∷ f.before;
        after = f.after;
        split = ap (λ (x : Bytes). c ∷ x) f.split;
        position = ap suc f.position ∙ q;
        first = λ x y e. omega (arith, place-suc needle c s m t f.first x y e, q);
      }
]

no_place :
    (needle : Bytes) (c : ℕ) (s : Bytes)
    → starts_with needle (c ∷ s) ≡ false
    → ((x y : Bytes) → s ≢ x ++ (needle ++ y))
    → (x y : Bytes) → c ∷ s ≢ x ++ (needle ++ y)
no_place needle c s h none_after [] y e = not-starts_with needle (c ∷ s) y h e
no_place needle c s h none_after (d ∷ x) y e =
    none_after x y (tails-eq c d s (x ++ (needle ++ y)) e)

no_place-nil :
    (needle : Bytes) → starts_with needle [] ≡ false → (x y : Bytes) → [] ≢ x ++ (needle ++ y)
no_place-nil needle h [] y e = not-starts_with needle [] y h e
no_place-nil needle h (d ∷ x) y e = nil-ne-cons d (x ++ (needle ++ y)) e

pub find-none : (needle s : Bytes) → find needle s ≡ none → (x y : Bytes) → s ≢ x ++ (needle ++ y)
unfolding find
find-none needle [] h = elim (Bool-cases (starts_with needle [])) [
  | inl t ↦ absurd (none-ne-some 0 (sym (rw t at h)))
  | inr t ↦ no_place-nil needle t
]
find-none needle (c ∷ s) h = elim (Bool-cases (starts_with needle (c ∷ s))) [
  | inl t ↦ absurd (none-ne-some 0 (sym (rw t at h)))
  | inr t ↦ no_place needle c s t (find-none needle s (map-suc-eq_none (find needle s) (rw t at h)))
]

-- Taking and dropping at the length of the first part of an append.
pub take-append : (xs ys : Bytes) (n : ℕ) → length xs ≡ n → take n (xs ++ ys) ≡ xs
take-append [] ys n e = subst (λ (k : ℕ). take k ys ≡ []) e refl
take-append (x ∷ xs) ys n e =
    subst (λ (k : ℕ). take k (x ∷ (xs ++ ys)) ≡ x ∷ xs) e
      (ap (λ (t : Bytes). x ∷ t) (take-append xs ys (length xs) refl))

pub drop-append : (xs ys : Bytes) (n : ℕ) → length xs ≡ n → drop n (xs ++ ys) ≡ ys
drop-append [] ys n e = subst (λ (k : ℕ). drop k ys ≡ ys) e refl
drop-append (x ∷ xs) ys n e =
    subst (λ (k : ℕ). drop k (x ∷ (xs ++ ys)) ≡ ys) e (drop-append xs ys (length xs) refl)

-- A `substr` at a position inside the text does not throw.
pub substr_from-append :
    (xs ys : Bytes) (n : ℕ) → length xs ≡ n → substr_from n (xs ++ ys) ≡ some ys
unfolding substr_from
substr_from-append xs ys n e =
    rw (le→leb n (length (xs ++ ys)) (omega (arith, length-append xs ys)), drop-append xs ys n e)

-- Two ways to cut one text: the longer front extends the shorter.
pub append_cut :
    (u v x y : Bytes) → u ++ v ≡ x ++ y → length u ≤ length x → (z : Bytes) × (v ≡ z ++ y)
append_cut [] v x y e h = (x, e)
append_cut (a ∷ u) v [] y e h = absurd (omega arith)
append_cut (a ∷ u) v (b ∷ x) y e h =
    append_cut u v x y (tails-eq a b (u ++ v) (x ++ y) e) (omega arith)
