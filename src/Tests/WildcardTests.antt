-- ===== src/Tests/WildcardTests.antt =====
-- Wildcards: the cases of unit_tests/engine/test_falco_utils.cpp, and the properties at work.
use falco.Prelude.{
  String, ◌≡◌, refl, ◌↔◌, inr, Bool, true, false, [], ◌∷◌, ◌++◌, arith, ℕ_discrete, nat_eq,
  string_eq, list_eq, cons-ne-nil,
}
use falco.ByteString.{
  Bytes, codes, find_char, find_first_not_of, find, starts_with, substr_from, prefix_to,
}
use falco.Wildcard.{
  star, returned, matches_wildcard, match_fuel, match_fuel_step, match_star, match_prefix,
  match_literal, match_found,
}
use falco.Wildcard.Meaning.{Matches}
use falco.Wildcard.Laws.{matches_wildcard_total, matches_wildcard_iff, matches_wildcard_misses}

abbrev IsMatch : String → String → Bool → Type 0
IsMatch pattern s b = matches_wildcard (codes pattern) (codes s) ≡ returned b

unit_tests :
    IsMatch "*" "anything" true
    × IsMatch "**" "anything" true
    × IsMatch "no star" "no star" true
    × IsMatch "hello*world" "hello new world" true
    × IsMatch "*hello*****world" "come on hello this world" true
    × IsMatch "star" "no star" false
    × IsMatch "hello*world" "hello new world yes" false
    × IsMatch "*hello*world*" "come on hello this yes" false
unfolding matches_wildcard match_fuel match_fuel_step match_star match_prefix match_literal
    match_found find_char find_first_not_of find starts_with substr_from prefix_to ℕ_discrete
    list_eq
unit_tests = (refl, refl, refl, refl, refl, refl, refl, refl)

abbrev ab : Bytes
ab = b'a' ∷ b'b' ∷ []

matches_wildcard_total_example : (b : Bool) × (matches_wildcard (star ∷ ab) ab ≡ returned b)
matches_wildcard_total_example = matches_wildcard_total (star ∷ ab) ab

matches_wildcard_iff_example :
    (matches_wildcard (ab ++ star ∷ []) (ab ++ ab) ≡ returned true)
    ↔ Matches (ab ++ star ∷ []) (ab ++ ab)
matches_wildcard_iff_example = matches_wildcard_iff (ab ++ star ∷ []) (ab ++ ab) (inr refl)

matches_wildcard_misses_example :
    (matches_wildcard (star ∷ ab) (ab ++ ([] ++ ab)) ≡ returned false)
    × Matches (star ∷ ab) (ab ++ ([] ++ ab))
matches_wildcard_misses_example =
    matches_wildcard_misses ab [] (omega arith) (cons-ne-nil b'a' (b'b' ∷ []))
