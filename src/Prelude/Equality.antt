-- ===== src/Prelude/Equality.antt =====
-- `==` for every type whose equality can be decided, by instances.
use Prim.Native.Nat.{ℕ}
use Prim.Native.String.{String}
use mathlib.Core.Path.{◌≡◌, refl, ap₂}
use mathlib.Core.Logic.{◌≢◌, ◌⊎◌, inl, inr, ite, dite}
use mathlib.Core.Bool.{Bool, true, false, Bool-discrete, ◌||◌}
use mathlib.Core.List.{List, [], ◌∷◌, ◌++◌}
use native.Mathlib.Decide.{ℕ_discrete}
use native.Mathlib.Omega.{arith}
use text.Mathlib.Text
use text.Mathlib.TextEquality.{eq_iff}

pub record Eq {ℓ} (A : Type ℓ) : Type ℓ where
  pub dec : Discrete A

module _ {ℓ} {A : Type ℓ} ⦃e : Eq A⦄ where
  infix 50 ◌==◌
  abbrev pub ◌==◌ : A → A → Bool
  a == b = ite (e.dec a b) true false

  pub ==_self : (a : A) → (a == a) ≡ true
  ==_self a = ground arith

  pub ==_ne : (a b : A) → a ≢ b → (a == b) ≡ false
  ==_ne a b h = ground arith

  -- To split on a test and keep both what it gives and what it means.
  pub ==_cases : (a b : A) → ((a == b) ≡ true) × (a ≡ b) ⊎ ((a == b) ≡ false) × (a ≢ b)
  ==_cases a b = elim (e.dec a b) [
    | yes p ↦ inl (rw (p, ==_self) refl, p)
    | no p ↦ inr (==_ne a b p, p)
  ]

instance abbrev pub nat_eq : Eq ℕ
nat_eq = record { dec = ℕ_discrete }

-- Shut in proofs, where a split on `s == t` yields the equation or its negation.
instance unfoldable pub string_eq : Eq String
string_eq = record {
  dec = λ s t.
      dite (Bool-discrete (Text.◌==◌ s t) true) (λ same. yes ((eq_iff s t).0 same))
        (λ differ. no (λ p. differ ((eq_iff s t).1 p)));
}

module _ {ℓ} {A : Type ℓ} ⦃e : Eq A⦄ where
  -- `std::find(l.begin(), l.end(), a) != l.end()`
  abbrev pub contains : List A → A → Bool
  contains [] a = false
  contains (x ∷ xs) a = a == x || contains xs a

  pub contains-append :
      (xs ys : List A) (a : A) → contains (xs ++ ys) a ≡ (contains xs a || contains ys a)
  contains-append [] ys a = refl
  contains-append (x ∷ xs) ys a = ground (arith, contains-append xs ys a)

module _ {ℓ} {A : Type ℓ} where
  pub nil-ne-cons : (b : A) (ys : List A) → ¬ ([] ≡ b ∷ ys)
  nil-ne-cons b ys h = cc

  pub cons-ne-nil : (b : A) (ys : List A) → ¬ (b ∷ ys ≡ [])
  cons-ne-nil b ys h = cc

  pub cons-ne-cons_of_head : (a b : A) (xs ys : List A) → ¬ (a ≡ b) → ¬ (a ∷ xs ≡ b ∷ ys)
  cons-ne-cons_of_head a b xs ys n h = n (cc)

  pub cons-ne-cons_of_tail : (a b : A) (xs ys : List A) → ¬ (xs ≡ ys) → ¬ (a ∷ xs ≡ b ∷ ys)
  cons-ne-cons_of_tail a b xs ys n h = n (cc)

module _ {ℓ} {A : Type ℓ} ⦃e : Eq A⦄ where
  pub list_dec : Discrete (List A)
  list_dec [] [] = yes refl
  list_dec [] (b ∷ ys) = no (nil-ne-cons b ys)
  list_dec (a ∷ xs) [] = no (cons-ne-nil a xs)
  list_dec (a ∷ xs) (b ∷ ys) =
      let tails = list_dec xs ys in
      dite (e.dec a b)
        (λ p. dite tails (λ q. yes (ap₂ ◌∷◌ p q)) (λ n. no (cons-ne-cons_of_tail a b xs ys n)))
        (λ n. no (cons-ne-cons_of_head a b xs ys n))

  instance unfoldable pub list_eq : Eq (List A)
  unfolding list_dec
  list_eq = record { dec = list_dec }
