-- ===== src/LoadInfo/Snippet.antt =====
-- userspace/engine/rule_loader.cpp: `context::snippet`, the lines of a rules file around a place.
use falco.Prelude.{
  ◌>>=◌, ℕ, zero, suc, ◌+◌, ◌-◌, ◌/◌, ◌%◌, ◌^◌, String, ◌<>◌, Bool, false, not, ◌&&◌, ◌||◌, Option,
  none, some, List, [], ◌∷◌, ◌++◌, ltb, leb, if◌then◌else◌, ◌==◌, nat_eq, string_eq, list_eq,
  length, get_elem?, replicate, take, drop,
}
use falco.ByteString.{Bytes, codes}
use falco.Prelude.{ℤ, pos as non_negative, negsuc}
use falco.LoadInfo.{Location, Context}

-- `std::string::npos` is one less.
abbrev two_64 : ℕ
two_64 = 2 ^ 64

-- The difference of two `size_t`.
abbrev pub sub_64 : ℕ → ℕ → ℕ
sub_64 a b = (a + two_64 - b) % two_64

-- `s.at(i) == '\\n'`, where `i` is below the size.
unfoldable pub is_newline : Bytes → ℕ → Bool
is_newline s i = elim (get_elem? s i) [ none ↦ false | some c ↦ c == 10 ]

-- The place is moved back to the text before it.
unfoldable pub move_to_text : Bytes → ℕ → ℕ
move_to_text s zero = zero
move_to_text s (suc p) =
    let before = move_to_text s p in
    if leb (length s) (suc p) || is_newline s (suc p) then before else suc p

unfoldable pub walk_back : Bytes → (half place : ℕ) → ℕ → ℕ
walk_back s half place zero = zero
walk_back s half place (suc from) =
    let before = walk_back s half place from in
    if not (is_newline s (suc from)) && ltb (place - suc from) half then before else suc from

-- The turns are the characters before the last one.
unfoldable pub walk_forward : Bytes → (half place turns : ℕ) → ℕ → ℕ
walk_forward s half place zero to = to
walk_forward s half place (suc turns) to =
    let after = walk_forward s half place turns (to + 1) in
    if not (is_newline s to) && ltb (to - place) half then after else to

-- `s.substr(from, n)`
abbrev pub substr : ℕ → ℕ → Bytes → Option Bytes
substr from n s = if ltb (length s) from then none else some (take n (drop from s))

-- `s.replace(from, 3, "...")`
unfoldable pub put_dots : ℕ → Bytes → Option Bytes
put_dots from s =
    if ltb (length s) from
    then none
    else some (take from s ++ (46 ∷ 46 ∷ 46 ∷ []) ++ drop (from + 3) s)

unfoldable pub dots_before : (half place from : ℕ) → Bytes → Option Bytes
dots_before half place from s = if leb half (sub_64 place from) then put_dots 0 s else some s

unfoldable pub dots_after : (half place to : ℕ) → Bytes → Option Bytes
dots_after half place to s =
    if leb half (sub_64 to place) then put_dots (sub_64 (length s) 3) s else some s

-- The marker is below the place.
unfoldable pub add_marker : (place from : ℕ) → Bytes → Bytes
add_marker place from s =
    let line = s ++ 10 ∷ [] in
    if leb (sub_64 place from) (length line - 1)
    then line ++ replicate (sub_64 place from) 32 ++ (94 ∷ 10 ∷ [])
    else line

abbrev pub no_context_available : Bytes
no_context_available = codes "<No context available>\n"

unfoldable pub mark_line : (half place from to : ℕ) → Bytes → Option Bytes
mark_line half place from to [] = some no_context_available
mark_line half place from to (c ∷ s) = dots_before half place from (c ∷ s) >>= λ before.
    dots_after half place to before >>= λ line. some (add_marker place from line)

-- The newlines at the ends are left out.
abbrev pub first_place : Bytes → ℕ → ℕ
first_place s from = if ltb from (length s) && is_newline s from then from + 1 else from

abbrev pub last_place : Bytes → ℕ → ℕ
last_place s to = if ltb to (length s) && is_newline s to then sub_64 to 1 else to

-- `none` is `std::out_of_range`.
unfoldable pub snippet_of : Bytes → (place snippet_width : ℕ) → Option Bytes
snippet_of [] place snippet_width = some no_context_available
snippet_of (c ∷ s) place snippet_width =
    let half = snippet_width / 2 in
    let text = move_to_text (c ∷ s) place in
    let from = first_place (c ∷ s) (walk_back (c ∷ s) half text text) in
    let to = last_place (c ∷ s) (walk_forward (c ∷ s) half text (length s - text) text) in
    substr from ((sub_64 to from + 1) % two_64) (c ∷ s) >>= λ line. mark_line half text from to line

-- What a snippet is, or the exception: of a context without a location, or of an access out of range.
pub data Snippet : Type 0 where
  snippet_text : Bytes → Snippet
  no_location : Snippet
  out_of_range : Snippet

-- The conversion of an `int` to `size_t`
abbrev pub to_size_t : ℤ → ℕ
to_size_t (non_negative n) = n
to_size_t (negsuc n) = two_64 - 1 - n

abbrev pub or_out_of_range : Option Bytes → Snippet
or_out_of_range none = out_of_range
or_out_of_range (some s) = snippet_text s

-- `m_locs.back()`
abbrev pub last_location : Location → List Location → Location
last_location loc [] = loc
last_location loc (next ∷ locs) = last_location next locs

unfoldable pub content_snippet : Bytes → Location → (snippet_width : ℕ) → Snippet
content_snippet content loc snippet_width =
    or_out_of_range (snippet_of content (to_size_t loc.position.pos) snippet_width)

unfoldable pub file_snippet : Option Bytes → Location → (snippet_width : ℕ) → Snippet
file_snippet none loc snippet_width =
    snippet_text (codes ("<No context for file + " <> (loc.name <> ">\n")))
file_snippet (some content) loc snippet_width = content_snippet content loc snippet_width

unfoldable pub snippet_at :
    List Location
    → (alt_content : Bytes) → (rules_contents : String → Option Bytes) → (snippet_width : ℕ)
    → Snippet
snippet_at [] alt_content rules_contents snippet_width = no_location
snippet_at (first ∷ locs) [] rules_contents snippet_width =
    let loc = last_location first locs in file_snippet (rules_contents loc.name) loc snippet_width
snippet_at (first ∷ locs) (c ∷ alt_content) rules_contents snippet_width =
    content_snippet (c ∷ alt_content) (last_location first locs) snippet_width

unfoldable pub snippet :
    Context → (rules_contents : String → Option Bytes) → (snippet_width : ℕ) → Snippet
snippet ctx rules_contents snippet_width =
    snippet_at ctx.m_locs (codes ctx.alt_content) rules_contents snippet_width
