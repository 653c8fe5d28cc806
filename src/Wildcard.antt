-- ===== src/Wildcard.antt =====
-- `falco::utils::matches_wildcard` (userspace/engine/falco_utils.cpp).
pub mod Greedy
pub mod Meaning
pub mod Complete
pub mod Laws
use falco.Prelude.{
  ℕ, zero, suc, ◌+◌, ◌-◌, ◌*◌, ◌/◌, ◌%◌, ◌^◌, ◌≤◌, ◌<◌, String, ◌<>◌, ◌≡◌, refl, sym, ap, ◌∙◌,
  subst, ◌≢◌, ◌↔◌, ◌⊎◌, inl, inr, ite, Bool, true, false, not, ◌&&◌, ◌||◌, Option, none, some, List,
  [], ◌∷◌, ◌++◌, map, arith, dec_lt, dec_le, ℕ_discrete, ltb, leb, if◌then◌else◌, ltb→lt, lt→ltb,
  leb→le, tests, Bool-cases, Option-cases, Eq, ◌==◌, ==_self, ==_ne, ==_cases, nat_eq, string_eq,
  list_eq, contains, contains-append, length, get_elem?, set, replicate, take, drop, length-append,
  length-set, get_elem?-set_self, get_elem?-set_ne, get_elem?-append_lt, get_elem?-append_end,
  get_elem?-eq_some, get_elem?-lt, length-map, All, All-append, Member,
}
use falco.ByteString.{Bytes, find_char, find_first_not_of, find, substr_from, prefix_to}

abbrev pub star : ℕ
star = b'*'

-- `thrown` is `std::out_of_range` from a `substr`; `exhausted` is the end of the fuel.
pub data Outcome : Type 0 where
  returned : Bool → Outcome
  thrown : Outcome
  exhausted : Outcome

-- A call on two substrings, either of which may throw.
abbrev pub call : (Bytes → Bytes → Outcome) → Option Bytes → Option Bytes → Outcome
call f (some pattern) (some s) = f pattern s
call f none s = thrown
call f (some pattern) none = thrown

-- The literal `to_find` is searched in the text, and the match goes on behind it.
unfoldable pub match_found : (Bytes → Bytes → Outcome) → Bytes → Bytes → Bytes → Outcome
match_found matches to_find next_pattern s = elim (find to_find s) [
  | none ↦ returned false
  | some lit_pos ↦
      call matches (substr_from (length to_find) next_pattern)
        (substr_from (lit_pos + length to_find) s)
]

-- The branch "*something*...": the stars are skipped, and the literal behind them is cut off.
unfoldable pub match_literal : (Bytes → Bytes → Outcome) → Option Bytes → Bytes → Outcome
match_literal matches none s = thrown
match_literal matches (some next_pattern) s =
    match_found matches (prefix_to (find_char star next_pattern) next_pattern) next_pattern s

unfoldable pub match_star : (Bytes → Bytes → Outcome) → Bytes → Bytes → Outcome
match_star matches pattern s = elim (find_first_not_of star pattern) [
  | none ↦ returned true
  | some next_pattern_start ↦ match_literal matches (substr_from next_pattern_start pattern) s
]

-- The branch "something*else*...": the text before the star is compared.
unfoldable pub match_prefix : (Bytes → Bytes → Outcome) → ℕ → Bytes → Bytes → Outcome
match_prefix matches star_pos pattern s =
    if take star_pos pattern == take star_pos s
    then call matches (substr_from star_pos pattern) (substr_from star_pos s)
    else returned false

-- One call, with `matches` for the recursive ones.
unfoldable pub match_fuel_step : (Bytes → Bytes → Outcome) → Bytes → Bytes → Outcome
match_fuel_step matches pattern s = elim (find_char star pattern) [
  | none ↦ returned (pattern == s)
  | some zero ↦ match_star matches pattern s
  | some (suc n) ↦ match_prefix matches (suc n) pattern s
]

unfoldable pub match_fuel : ℕ → Bytes → Bytes → Outcome
match_fuel zero pattern s = exhausted
match_fuel (suc fuel) pattern s = match_fuel_step (match_fuel fuel) pattern s

-- Each call is on a shorter pattern, so its length bounds the depth.
unfoldable pub matches_wildcard : Bytes → Bytes → Outcome
matches_wildcard pattern s = match_fuel (suc (length pattern)) pattern s
