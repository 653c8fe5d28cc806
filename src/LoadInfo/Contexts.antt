-- ===== src/LoadInfo/Contexts.antt =====
-- userspace/engine/rule_loader.cpp: the contexts of messages, each a chain of locations.
use falco.Prelude.{
  ℤ, pos, negsuc, ℕ, zero, suc, ◌+◌, ◌-◌, ◌%◌, ◌^◌, String, ◌<>◌, true, false, ◌||◌, Option, none,
  some, List, [], ◌∷◌, ◌++◌, ltb, if◌then◌else◌, ◌==◌, nat_eq, string_eq, list_eq,
}
use Prim.Native.Char.{code}
use falco.LoadInfo.{
  condition_expression, ItemType, value_for, Position, Location, Context, ListInfo, MacroInfo,
  no_entries, entry,
}
use falco.RuleInfo.{RuleInfo, RuleUpdateInfo, RuleExceptionInfo}

-- `name()`: the name of the first location, and `none` for the exception where there is none.
unfoldable pub context_name : Context → Option String
context_name ctx = elim ctx.m_locs [ [] ↦ none | loc ∷ locs ↦ some loc.name ]

unfoldable pub add_location : String → Position → ItemType → String → (parent : Context) → Context
add_location name position item_type item_name parent = record {
  m_locs =
      parent.m_locs
      ++ record { name = name; position = position; item_type = item_type; item_name = item_name }
        ∷ [];
  alt_content = "";
}

-- The context of a node of the document, at the position of its mark.
unfoldable pub node_context : Position → ItemType → String → (parent : Context) → Option Context
node_context mark item_type item_name parent = elim (context_name parent) [
  | none ↦ none
  | some name ↦ some (add_location name mark item_type item_name parent)
]

-- The context of a place that the parser reports.
unfoldable pub mark_context : Position → (parent : Context) → Option Context
mark_context mark parent = node_context mark value_for "" parent

abbrev pub new_list : Context → ListInfo
new_list ctx = record { ctx = ctx; index = 0; visibility = 0; name = ""; items = [] }

abbrev pub new_macro : Context → MacroInfo
new_macro ctx = record {
  ctx = ctx;
  cond_ctx = ctx;
  index = 0;
  visibility = 0;
  name = "";
  cond = "";
}

abbrev pub new_exception : Context → RuleExceptionInfo
new_exception ctx = record {
  ctx = ctx;
  name = "";
  fields = entry false "" no_entries;
  comps = entry false "" no_entries;
  values = [];
}

-- The priority is `PRIORITY_DEBUG`.
abbrev pub new_rule : Context → RuleInfo
new_rule ctx = record {
  ctx = ctx;
  cond_ctx = ctx;
  output_ctx = ctx;
  index = 0;
  visibility = 0;
  unknown_source = false;
  name = "";
  cond = "";
  source = "";
  desc = "";
  output = "";
  tags = [];
  exceptions = [];
  priority = 7;
  enabled = true;
  warn_evttypes = true;
  skip_if_unknown_filter = false;
}

abbrev pub new_update : Context → RuleUpdateInfo
new_update ctx = record {
  ctx = ctx;
  cond_ctx = ctx;
  name = "";
  cond = none;
  output = none;
  desc = none;
  tags = none;
  exceptions = none;
  priority = none;
  enabled = none;
  warn_evttypes = none;
  skip_if_unknown_filter = none;
}

-- The first characters of a text.
unfoldable pub take_text : ℕ → String → String
take_text zero s = ""
take_text (suc n) String.[] = ""
take_text (suc n) (String.◌∷◌ c s) = String.◌∷◌ c (take_text n s)

unfoldable pub text_length : String → ℕ
text_length String.[] = 0
text_length (String.◌∷◌ c s) = suc (text_length s)

-- `std::replace` of the line ends by spaces.
unfoldable pub blank_lines : String → String
blank_lines String.[] = ""
blank_lines (String.◌∷◌ c s) =
    let rest = blank_lines s in
    if code c == 10 || code c == 13 then " " <> rest else String.◌∷◌ c rest

-- A sum of a `uint32_t` and an `int`, stored in an `int`.
abbrev pub as_uint32 : ℤ → ℕ
as_uint32 (pos n) = n % 2 ^ 32
as_uint32 (negsuc n) = 2 ^ 32 - 1 - n % 2 ^ 32

abbrev pub as_int : ℕ → ℤ
as_int n = if ltb n (2 ^ 31) then pos n else negsuc (2 ^ 32 - 1 - n)

unfoldable pub add_int : ℕ → ℤ → ℤ
add_int m z = as_int ((m + as_uint32 z) % 2 ^ 32)

abbrev last_position : Position → List Location → Position
last_position p [] = p
last_position p (loc ∷ locs) = last_position loc.position locs

abbrev pub condition_name : String → String
condition_name condition = blank_lines (
    "\""
    <> (if ltb 20 (text_length condition)
        then take_text (20 - 3) condition <> "...\""
        else condition <> "\""))

-- The context of a place in a condition, by its offset, line and column; `none` where the parent has
-- no location.
unfoldable pub condition_context :
    (idx line col : ℕ) → (condition : String) → (parent : Context) → Option Context
condition_context idx line col condition parent = elim parent.m_locs [
  | [] ↦ none
  | loc ∷ locs ↦
      let p = last_position loc.position locs in
      let condpos : Position = record {
        pos = add_int idx p.pos;
        line = add_int line p.line;
        column = add_int col p.column;
      } in
      some
        (record (add_location (condition_name condition) condpos condition_expression "" parent) {
          alt_content = condition;
        })
]
