-- ===== src/Prelude/Sets.antt =====
-- `std::set<T*>` as the increasing list of its elements, and `std::list` with its first match erased.
use Prim.Native.Nat.{ℕ, ◌<◌}
use mathlib.Core.Path.{◌≡◌, refl}
use mathlib.Core.Logic.{inl, inr}
use mathlib.Core.Bool.{false, not, ◌&&◌, ◌||◌}
use mathlib.Core.List.{List, [], ◌∷◌, ◌++◌}
use native.Mathlib.Omega.{arith}
use falco.Prelude.Predicates.{All}
use falco.Prelude.Tests.{ltb, Bool-cases, if◌then◌else◌}
use falco.Prelude.Equality.{Eq, ◌==◌, nat_eq, contains, contains-append}

-- `s.insert(p)`
unfoldable pub insert_sorted : ℕ → List ℕ → List ℕ
insert_sorted p [] = p ∷ []
insert_sorted p (q ∷ s) =
    let rest = insert_sorted p s in
    if p == q then q ∷ s else if ltb p q then p ∷ q ∷ s else q ∷ rest

-- `l.erase(std::find(l.begin(), l.end(), p))` where it is found.
unfoldable pub erase {ℓ} : {A : Type ℓ} ⦃e : Eq A⦄ → A → List A → List A
erase p [] = []
erase p (q ∷ s) = if p == q then s else q ∷ erase p s

pub contains-insert_sorted :
    (p q : ℕ) (s : List ℕ) → contains (insert_sorted p s) q ≡ (q == p || contains s q)
unfolding insert_sorted
contains-insert_sorted p q [] = refl
contains-insert_sorted p q (r ∷ s) = ground (arith, contains-insert_sorted p q s)

-- No element stands twice.
abbrev pub IsNodup {ℓ} : {A : Type ℓ} ⦃e : Eq A⦄ → List A → Type 0
IsNodup [] = Unit
IsNodup (q ∷ s) = (contains s q ≡ false) × IsNodup s

module _ {ℓ} {A : Type ℓ} ⦃e : Eq A⦄ where
  pub contains-erase :
      (p q : A) (s : List A) → IsNodup s → contains (erase p s) q ≡ (not (q == p) && contains s q)
  unfolding erase
  contains-erase p q [] h = ground arith
  contains-erase p q (r ∷ s) h = ground (arith, contains-erase p q s h.1, h.0)

  pub erase-IsNodup : (p : A) (s : List A) → IsNodup s → IsNodup (erase p s)
  unfolding erase
  erase-IsNodup p [] h = tt
  erase-IsNodup p (r ∷ s) h = ground (arith, erase-IsNodup p s h.1, contains-erase p r s h.1, h.0)

  pub append-IsNodup :
      (s : List A) (p : A) → IsNodup s → contains s p ≡ false → IsNodup (s ++ p ∷ [])
  append-IsNodup [] p h f = (refl, tt)
  append-IsNodup (r ∷ s) p h f =
      ground (arith, append-IsNodup s p h.1, contains-append s (p ∷ []) r, h.0)

-- The elements increase.
abbrev pub IsIncreasing : List ℕ → Type 0
IsIncreasing [] = Unit
IsIncreasing (q ∷ s) = All (λ r. q < r) s × IsIncreasing s

All-lt-insert_sorted :
    (q p : ℕ) (s : List ℕ) → q < p → All (λ r. q < r) s → All (λ r. q < r) (insert_sorted p s)
unfolding insert_sorted
All-lt-insert_sorted q p [] h k = (h, tt)
All-lt-insert_sorted q p (r ∷ s) h k = ground (arith, All-lt-insert_sorted q p s h k.1, k.0, k.1)

All-lt_trans : (p q : ℕ) (s : List ℕ) → p < q → All (λ r. q < r) s → All (λ r. p < r) s
All-lt_trans p q [] h k = tt
All-lt_trans p q (r ∷ s) h k = (omega (arith, k.0), All-lt_trans p q s h k.1)

pub insert_sorted-IsIncreasing :
    (p : ℕ) (s : List ℕ) → IsIncreasing s → IsIncreasing (insert_sorted p s)
unfolding insert_sorted
insert_sorted-IsIncreasing p [] h = (tt, tt)
insert_sorted-IsIncreasing p (r ∷ s) h = ground (
  arith,
  insert_sorted-IsIncreasing p s h.1,
  All-lt-insert_sorted r p s,
  All-lt_trans p r s,
  h.0,
  h.1,
)

All-erase {κ} :
    {A : Type 0} ⦃e : Eq A⦄ (P : A → Type κ) (p : A) (s : List A) → All P s → All P (erase p s)
unfolding erase
All-erase P p [] h = tt
All-erase P p (r ∷ s) h = elim (Bool-cases (p == r)) [
  | inl t ↦ rw t h.1
  | inr t ↦ rw t (h.0, All-erase P p s h.1)
]

pub erase-IsIncreasing : (p : ℕ) (s : List ℕ) → IsIncreasing s → IsIncreasing (erase p s)
unfolding erase
erase-IsIncreasing p [] h = tt
erase-IsIncreasing p (r ∷ s) h = elim (Bool-cases (p == r)) [
  | inl t ↦ rw t h.1
  | inr t ↦ rw t (All-erase (λ q. r < q) p s h.0, erase-IsIncreasing p s h.1)
]

not-contains_of_lt : (p : ℕ) (s : List ℕ) → All (λ r. p < r) s → contains s p ≡ false
not-contains_of_lt p [] h = refl
not-contains_of_lt p (r ∷ s) h = ground (arith, not-contains_of_lt p s h.1, h.0)

pub IsIncreasing-IsNodup : (s : List ℕ) → IsIncreasing s → IsNodup s
IsIncreasing-IsNodup [] h = tt
IsIncreasing-IsNodup (q ∷ s) h = (not-contains_of_lt q s h.0, IsIncreasing-IsNodup s h.1)
