-- ===== src/Prelude/Decimal.antt =====
-- The decimal digits of a number.
use Prim.Native.Nat.{ℕ, zero, suc, ◌/◌, ◌%◌}
use Prim.Native.String.{String, ◌++◌ as ◌<>◌}
use mathlib.Core.List.{List, [], ◌∷◌}

abbrev digit_names : List String
digit_names = "0" ∷ "1" ∷ "2" ∷ "3" ∷ "4" ∷ "5" ∷ "6" ∷ "7" ∷ "8" ∷ "9" ∷ []

abbrev name_at : List String → ℕ → String
name_at [] i = ""
name_at (s ∷ ss) zero = s
name_at (s ∷ ss) (suc i) = name_at ss i

abbrev digit : ℕ → String
digit d = name_at digit_names d

abbrev digits : (fuel : ℕ) → ℕ → String
digits zero n = ""
digits (suc fuel) n = elim (n / 10) [
  | zero ↦ digit (n % 10)
  | suc m ↦ digits fuel (n / 10) <> digit (n % 10)
]

-- `std::to_string` of a number: it has fewer digits than the number after it.
abbrev pub to_string : ℕ → String
to_string n = digits (suc n) n
