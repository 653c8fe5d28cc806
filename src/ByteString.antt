-- ===== src/ByteString.antt =====
-- What the program uses of `std::string`, over lists of byte values.
pub mod Search
use Prim.Native.Char.{code}
use mathlib.Core.Option
use falco.Prelude.{
  ℕ, zero, suc, ◌+◌, ◌-◌, ◌*◌, ◌/◌, ◌%◌, ◌^◌, ◌≤◌, ◌<◌, String, ◌<>◌, ◌≡◌, refl, sym, ap, ◌∙◌,
  subst, ◌≢◌, ◌↔◌, ◌⊎◌, inl, inr, ite, Bool, true, false, not, ◌&&◌, ◌||◌, Option, none, some, List,
  [], ◌∷◌, ◌++◌, map, arith, dec_lt, dec_le, ℕ_discrete, ltb, leb, if◌then◌else◌, ltb→lt, lt→ltb,
  leb→le, tests, Bool-cases, Option-cases, Eq, ◌==◌, ==_self, ==_ne, ==_cases, nat_eq, string_eq,
  contains, contains-append, length, get_elem?, set, replicate, take, drop, length-append,
  length-set, get_elem?-set_self, get_elem?-set_ne, get_elem?-append_lt, get_elem?-append_end,
  get_elem?-eq_some, get_elem?-lt, length-map, All, All-append, Member,
}

abbrev pub Bytes : Type 0
Bytes = List ℕ

-- The bytes of a name, which is ASCII.
abbrev pub codes : String → Bytes
codes String.[] = []
codes (String.◌∷◌ c s) = code c ∷ codes s

-- `s.compare(0, p.size(), p) == 0`
unfoldable pub starts_with : Bytes → Bytes → Bool
starts_with [] s = true
starts_with (c ∷ p) [] = false
starts_with (c ∷ p) (d ∷ s) = c == d && starts_with p s

-- `s.find(c)`: the first position of a byte, `none` for `npos`.
unfoldable pub find_char : ℕ → Bytes → Option ℕ
find_char c [] = none
find_char c (d ∷ s) = let rest = find_char c s in if d == c then some 0 else Option.map suc rest

-- `s.find_first_not_of(c)`
unfoldable pub find_first_not_of : ℕ → Bytes → Option ℕ
find_first_not_of c [] = none
find_first_not_of c (d ∷ s) =
    let rest = find_first_not_of c s in if d == c then Option.map suc rest else some 0

-- `s.find(needle)`: the first position at which `needle` stands in `s`.
unfoldable pub find : Bytes → Bytes → Option ℕ
unfolding starts_with
find needle [] = if starts_with needle [] then some 0 else none
find needle (c ∷ s) =
    let rest = find needle s in if starts_with needle (c ∷ s) then some 0 else Option.map suc rest

-- `s.substr(pos)`, which throws `std::out_of_range` past the end.
unfoldable pub substr_from : ℕ → Bytes → Option Bytes
substr_from pos s = if leb pos (length s) then some (drop pos s) else none

-- `s.substr(0, n)`, with `none` for `npos`.
unfoldable pub prefix_to : Option ℕ → Bytes → Bytes
prefix_to none s = s
prefix_to (some n) s = take n s
