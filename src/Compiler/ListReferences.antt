-- ===== src/Compiler/ListReferences.antt =====
-- userspace/engine/rule_loader_compiler.cpp: the references to a list in the text of a condition are
-- replaced by its items.
use falco.Prelude.{
  ℕ, zero, suc, ◌+◌, ◌-◌, String, Bool, true, false, ◌&&◌, ◌||◌, Option, none, some, List, [], ◌∷◌,
  ◌++◌, map, ltb, leb, if◌then◌else◌, ◌==◌, nat_eq, string_eq, list_eq, contains, length, get_elem?,
  take, drop,
}
use Prim.Native.Char.{Char, code}
use mathlib.Core.Option
use falco.ByteString.{find}
use falco.Compiler.Conditions.{quote_item}

-- A text as the list of its characters, and back.
abbrev pub Text : Type 0
Text = List Char

abbrev pub to_text : String → Text
to_text String.[] = []
to_text (String.◌∷◌ c s) = c ∷ to_text s

abbrev pub of_text : Text → String
of_text [] = ""
of_text (c ∷ t) = String.◌∷◌ c (of_text t)

-- " \t\n\r"
abbrev pub is_blank : Char → Bool
is_blank c = contains (32 ∷ 9 ∷ 10 ∷ 13 ∷ []) (code c)

-- The blanks and "(),="
abbrev pub is_delim : Char → Bool
is_delim c = is_blank c || contains (40 ∷ 41 ∷ 44 ∷ 61 ∷ []) (code c)

-- A test of a character, where there is one.
abbrev pub holds_at : (Char → Bool) → Text → ℕ → Bool
holds_at test t i = elim (get_elem? t i) [ none ↦ false | some c ↦ test c ]

-- `cnd.find(name, from)`
unfoldable pub find_from : (name : Text) → (cnd : Text) → (from : ℕ) → Option ℕ
find_from name cnd from =
    if leb from (length cnd)
    then Option.map (λ i. i + from) (find (map code name) (map code (drop from cnd)))
    else none

-- `while (start > 0 && blanks.find(cnd[start - 1]) != npos) start--`
unfoldable pub skip_left : Text → ℕ → ℕ
skip_left cnd zero = zero
skip_left cnd (suc start) =
    let rest = skip_left cnd start in if holds_at is_blank cnd start then rest else suc start

-- `while (end < cnd.length() && blanks.find(cnd[end]) != npos) end++`, by the characters left.
unfoldable pub skip_right : (left : ℕ) → Text → ℕ → ℕ
skip_right zero cnd end = end
skip_right (suc left) cnd end =
    let rest = skip_right left cnd (end + 1) in if holds_at is_blank cnd end then rest else end

-- All the items, with `sub` as it grows.
unfoldable pub join_values : List String → Text → Text
join_values [] sub = sub
join_values (v ∷ vs) sub =
    join_values vs (sub ++ (elim sub [ [] ↦ [] | _ ∷ _ ↦ to_text ", " ] ++ to_text (quote_item v)))

abbrev pub is_empty : Text → Bool
is_empty [] = true
is_empty (c ∷ t) = false

-- Without items a comma is removed on the left or on the right.
unfoldable pub drop_comma : Text → (start end : ℕ) → ℕ × ℕ
drop_comma cnd start end =
    if ltb 0 start && holds_at (λ c. code c == 44) cnd (start - 1)
    then (start - 1, end)
    else if holds_at (λ c. code c == 44) cnd end
    then (start, end + 1)
    else (start, end)

-- The text with a substitution in place of what stands from `start` to `end`, and the place behind
-- the substitution from which the search goes on.
unfoldable pub substitute : Text → (sub : Text) → (start end : ℕ) → Text × ℕ
substitute cnd sub start end = (
  (if ltb 0 start then take start cnd ++ to_text " " else [])
      ++ ((sub ++ to_text " ") ++ (if leb end (length cnd) then drop end cnd else [])),
  start + length sub + 1,
)

-- Whether a name that stands between `start` and `end` is a whole word.
unfoldable pub is_reference : Text → (start end : ℕ) → Bool
is_reference cnd start end =
    (start == 0 || holds_at is_delim cnd (start - 1))
    && (leb (length cnd) end || holds_at is_delim cnd end)

-- One turn of the loop: the text, the place of the last match, and whether the list was used.
unfoldable pub resolve_at :
    (name : Text) → (sub : Text) → Text → (start : ℕ) → (used : Bool) → Text × (ℕ × Bool)
resolve_at name sub cnd start used =
    let end = start + length name in
    if is_reference cnd start end
    then (let s = skip_left cnd start in
        let e = skip_right (length cnd - end) cnd end in
        let ends = if is_empty sub then drop_comma cnd s e else (s, e) in
        let out = substitute cnd sub ends.0 ends.1 in (out.0, (out.1, true)))
    else (cnd, (start, used))

-- The loop, on fuel.
unfoldable pub resolve_from :
    (fuel : ℕ)
    → (name : Text) → (sub : Text) → Text
    → (start : Option ℕ) → (used : Bool) → Option (Text × Bool)
resolve_from fuel name sub cnd none used = some (cnd, used)
resolve_from zero name sub cnd (some start) used = none
resolve_from (suc fuel) name sub cnd (some start) used =
    let r = resolve_at name sub cnd start used in
    resolve_from fuel name sub r.0 (find_from name r.0 (r.1.0 + 1)) r.1.1

-- The condition with the references replaced, and whether there was one. Each turn brings the search
-- nearer to the end of the text.
unfoldable pub resolve_list :
    (cnd : String) → (name : String) → (items : List String) → Option (String × Bool)
resolve_list cnd name items =
    let t = to_text cnd in
    elim (resolve_from (length t + 1) (to_text name) (join_values items []) t
      (find_from (to_text name) t 0) false) [
        | none ↦ none
        | some (t', used) ↦ some (of_text t', used)
      ]
