-- ===== src/Tests/CompileTests.antt =====
-- Runs of the replacement of lists and of a whole compilation in
-- userspace/engine/rule_loader_compiler.cpp.
use falco.Prelude.{
  ℕ, String, ◌≡◌, refl, inr, Bool, true, false, none, some, List, [], ◌∷◌, map, ℕ_discrete, nat_eq,
  string_eq, list_eq, cons-ne-nil,
}
use falco.ByteString.{find, find_char, starts_with}
use falco.Filter.{value_expr}
use falco.IndexedVector.{empty_vector, at, at_id, insert, assign, update}
use falco.IndexedVector
use falco.LoadInfo.{Context, Configuration, FalcoSource, ListInfo, new_context, new_result}
use falco.LoadInfo.Contexts.{new_list, new_rule}
use falco.RuleInfo.{RuleInfo}
use falco.Collector.{Collector}
use falco.Compiler.Conditions.{quote_item}
use falco.Compiler.ListReferences.{
  find_from, skip_left, skip_right, join_values, drop_comma, substitute, is_reference, resolve_at,
  resolve_from, resolve_list,
}
use falco.Compiler.ListTermination.{resolve_list_total}
use falco.Compiler.Lists.{
  compile_list_infos, compile_each_list, expand_items, find_reference, insert_with_id,
  mark_used_lists,
}
use falco.Compiler.Infos.{CompilerLibraries, compiled}
use falco.Compiler.Rules.{compile}
use falco.Compiler.Numbered.{IsNumbered}
use falco.Compiler.Output.{compile-IsNumbered}
use falco.Reader.{after}

replaces_list :
    resolve_list "proc.name in (shells)" "shells" ("bash" ∷ "my sh" ∷ [])
    ≡ some ("proc.name in ( bash, \"my sh\" )", true)
unfolding resolve_list resolve_from resolve_at is_reference substitute drop_comma join_values
    skip_right skip_left find_from find starts_with quote_item ℕ_discrete find_char
replaces_list = refl

resolve_list_total_example :
    (r : String × Bool) × (resolve_list "proc.name in (shells)" "shells" ("bash" ∷ []) ≡ some r)
resolve_list_total_example =
    resolve_list_total "proc.name in (shells)" "shells" ("bash" ∷ []) (cons-ne-nil _ _)

abbrev ctx : Context
ctx = new_context "rules.yaml"

abbrev list_of : (name : String) → (items : List String) → (index : ℕ) → ListInfo
list_of name items index = record (new_list ctx) {
  name = name;
  items = items;
  index = index;
  visibility = index;
}

abbrev syscall : FalcoSource
syscall = record { name = "syscall"; compiles = λ s. true; new_filtercheck = λ s. true }

abbrev shell_rule : RuleInfo
shell_rule = record (new_rule ctx) {
  name = "shell";
  source = "syscall";
  cond = "proc.name in (shells)";
}

abbrev pub collector : Collector String
collector = record {
  m_cur_index = 4;
  m_rule_infos = record { m_entries = shell_rule ∷ []; m_index = ("shell", 0) ∷ [] };
  m_macro_infos = empty_vector;
  m_list_infos = record {
    m_entries =
        list_of "posix" ("sh" ∷ []) 0
        ∷ list_of "bourne" ("posix" ∷ []) 1
        ∷ list_of "shells" ("bourne" ∷ []) 2
        ∷ [];
    m_index = ("posix", 0) ∷ ("bourne", 1) ∷ ("shells", 2) ∷ [];
  };
  m_required_plugin_versions = [];
  m_required_engine_version = record { ctx = ctx; version = "" };
}

-- A list in a list is expanded, but not a list in that one.
expands_one_level :
    map (λ l. l.items) (compile_list_infos collector empty_vector).m_entries
    ≡ ("sh" ∷ []) ∷ ("sh" ∷ []) ∷ ("posix" ∷ []) ∷ []
unfolding compile_list_infos compile_each_list expand_items find_reference insert_with_id
    mark_used_lists at at_id insert update assign IndexedVector.find string_eq
expands_one_level = refl

abbrev pub libraries : CompilerLibraries
libraries = record {
  parse = λ s. inr (value_expr s);
  place = λ p. (p, 0, 0);
  list_operators = "in" ∷ [];
  replace = λ text from to. text;
  format_error = λ source s. none;
  compile_filter = λ source ast. compiled 7 [];
  warnings_of = λ ast. [];
  ppm_event_codes = λ ast. 1 ∷ [];
  syscall_source = "syscall";
}

abbrev pub config : Configuration
config = record {
  content = "";
  sources = record { m_entries = syscall ∷ []; m_index = ("syscall", 0) ∷ [] };
  name = "rules.yaml";
  output_extra = "";
  replace_output_container_info = false;
  res = new_result "rules.yaml";
}

compile-IsNumbered_example : IsNumbered (after (compile libraries config collector)).rules
compile-IsNumbered_example = compile-IsNumbered libraries config collector
