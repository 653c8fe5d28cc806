-- ===== src/Tests/ReaderTests.antt =====
-- Runs of the reader of userspace/engine/rule_loader_reader.cpp on documents that are trees.
use falco.Prelude.{
  pos, ℕ, suc, ◌+◌, ◌≤◌, ◌<◌, String, ◌≡◌, refl, ◌⊎◌, inl, inr, Bool, true, false, not, Option,
  none, some, List, [], ◌∷◌, map, arith, ℕ_discrete, if◌then◌else◌, Bool-cases, ◌==◌, nat_eq,
  string_eq, list_eq, length, All,
}
use falco.IndexedVector.{empty_vector, at, find, insert, assign}
use falco.LoadInfo.{
  new_context, Position, Configuration, new_result, add_error, ListInfo, load_unknown_item,
}
use falco.LoadInfo.Contexts.{context_name, add_location, node_context, new_list}
use falco.Collector.{clear, Collector, SinspVersions, list_info, define_info, define_list}
use falco.Collector.Invariant.{after_call, IsOrdered}
use falco.Collector.Sequence.{defines_list, apply, clear-IsOrdered}
use falco.Reader.{
  Libraries, Yaml, Failure, std_exception, ReaderState, continue_with, ◌>>=◌, pure, throw_if,
  or_throw, or_fail, located, finish_call, collect, warn,
}
use falco.Reader.Values.{decode_val_generic, decode_elements, decode_seq, decode_overrides}
use falco.Reader.Items.{read_append, read_override, read_list}
use falco.Reader.Documents.{
  read_item, read_items, read_document, read_documents, conclude, record_error, read,
}
use falco.Reader.Trace.{ends, warns, calls, warned, IsTraced}
use falco.Reader.Answer.{read-IsTraced, IsConcluded, read-errors, Trace-IsOrdered}
use falco.Reader.Finishes.{Depth, read-total}

-- Nodes: children of a mapping have keys.
mutual
  data Node : Type 0 where
    undefined : Node
    null : Node
    text : String → Node
    sequence : Nodes → Node
    mapping : Nodes → Node

  data Nodes : Type 0 where
    no_nodes : Nodes
    add_node : String → Node → Nodes → Nodes

abbrev mutual
  depth : Node → ℕ
  depth undefined = 0
  depth null = 0
  depth (text s) = 0
  depth (sequence ns) = suc (depths ns)
  depth (mapping ns) = suc (depths ns)

  depths : Nodes → ℕ
  depths no_nodes = 0
  depths (add_node k n ns) = depth n + depths ns

abbrev lookup : String → Nodes → Node
lookup key no_nodes = undefined
lookup key (add_node k n ns) = if k == key then n else lookup key ns

abbrev get : String → Node → Node
get key undefined = undefined
get key null = undefined
get key (text s) = undefined
get key (sequence ns) = undefined
get key (mapping ns) = lookup key ns

abbrev to_nodes : Nodes → List Node
to_nodes no_nodes = []
to_nodes (add_node k n ns) = n ∷ to_nodes ns

abbrev elements : Node → List Node
elements undefined = []
elements null = []
elements (text s) = []
elements (sequence ns) = to_nodes ns
elements (mapping ns) = []

lookup-le : (key : String) (ns : Nodes) → depth (lookup key ns) ≤ depths ns
lookup-le key no_nodes = omega arith
lookup-le key (add_node k n ns) = elim (Bool-cases (k == key)) [
  | inl e ↦ rw e (omega arith)
  | inr e ↦ rw e (omega (arith, lookup-le key ns))
]

get-le : (node : Node) (key : String) → depth (get key node) ≤ depth node
get-le undefined key = omega arith
get-le null key = omega arith
get-le (text s) key = omega arith
get-le (sequence ns) key = omega arith
get-le (mapping ns) key = omega (arith, lookup-le key ns)

below : (ns : Nodes) (k : ℕ) → depths ns ≤ k → All (λ v. depth v < suc k) (to_nodes ns)
below no_nodes k h = tt
below (add_node key n ns) k h = (omega (arith, h), below ns k (omega (arith, h)))

elements-lt : (node : Node) → All (λ v. depth v < depth node) (elements node)
elements-lt undefined = tt
elements-lt null = tt
elements-lt (text s) = tt
elements-lt (sequence ns) = below ns (depths ns) (omega arith)
elements-lt (mapping ns) = tt

abbrev is_defined : Node → Bool
is_defined undefined = false
is_defined null = true
is_defined (text s) = true
is_defined (sequence ns) = true
is_defined (mapping ns) = true

abbrev content_of : Node → Option String
content_of (text s) = some s
content_of undefined = none
content_of null = none
content_of (sequence ns) = none
content_of (mapping ns) = none

abbrev text_or : Option String → String
text_or none = ""
text_or (some s) = s

abbrev read_as_text : Option String → Failure ⊎ String
read_as_text none = inl (std_exception "bad conversion")
read_as_text (some s) = inr s

abbrev to_pairs : Nodes → List (Node × Node)
to_pairs no_nodes = []
to_pairs (add_node k n ns) = (text k, n) ∷ to_pairs ns

abbrev pairs : Node → List (Node × Node)
pairs undefined = []
pairs null = []
pairs (text s) = []
pairs (sequence ns) = []
pairs (mapping ns) = to_pairs ns

abbrev truth : Option String → Option Bool
truth none = none
truth (some s) = if s == "true" then some true else if s == "false" then some false else none

abbrev is_some : {A : Type 0} → Option A → Bool
is_some none = false
is_some (some a) = true

abbrev start : Position
start = record { pos = pos 0; line = pos 0; column = pos 0 }

abbrev is_sequence : Node → Bool
is_sequence undefined = false
is_sequence null = false
is_sequence (text s) = false
is_sequence (sequence ns) = true
is_sequence (mapping ns) = false

abbrev is_map : Node → Bool
is_map undefined = false
is_map null = false
is_map (text s) = false
is_map (sequence ns) = false
is_map (mapping ns) = true

abbrev is_null : Node → Bool
is_null undefined = true
is_null null = true
is_null (text s) = false
is_null (sequence ns) = false
is_null (mapping ns) = false

abbrev yaml_of : List Node → Yaml Node
yaml_of docs = record {
  is_defined = is_defined;
  is_null = is_null;
  is_scalar = λ n. is_some (content_of n);
  is_sequence = is_sequence;
  is_map = is_map;
  scalar = λ n. text_or (content_of n);
  get = get;
  elements = elements;
  pairs = pairs;
  mark = λ n. start;
  decode_string = content_of;
  decode_bool = λ n. truth (content_of n);
  decode_uint32 = λ n. none;
  as_string = λ n. read_as_text (content_of n);
  load_all = λ s. inr docs;
}

abbrev versions : SinspVersions String
versions = record {
  sinsp_version = λ s. s;
  is_valid_version = λ v. not (v == "");
  compatible_with = λ v w. v == w;
  is_before = λ v w. false;
  as_string = λ v. v;
  engine_version = "0.42.0";
}

abbrev libraries : List Node → Libraries Node String
libraries docs = record {
  yaml = yaml_of docs;
  sinsp = versions;
  supported_operators = "=" ∷ "in" ∷ [];
  trim = λ s. s;
  match_identifier = λ s. true;
  match_barestr = λ s. true;
  syscall_source = "syscall";
}

abbrev config : Configuration
config = record {
  content = "";
  sources = empty_vector;
  name = "rules.yaml";
  output_extra = "";
  replace_output_container_info = false;
  res = new_result "rules.yaml";
}

abbrev empty_collector : Collector String
empty_collector = record {
  m_cur_index = 0;
  m_rule_infos = empty_vector;
  m_macro_infos = empty_vector;
  m_list_infos = empty_vector;
  m_required_plugin_versions = [];
  m_required_engine_version = record { ctx = new_context "rules.yaml"; version = "0.0.0" };
}

-- A list without items behind one with an item.
abbrev documents : List Node
documents =
    sequence (
      add_node ""
        (mapping (
          add_node "list" (text "shells")
            (add_node "items" (sequence (add_node "" (text "bash") no_nodes)) no_nodes)))
        (add_node "" (mapping (add_node "list" (text "users") no_nodes)) no_nodes))
    ∷ []

abbrev tree : (docs : List Node) → Depth (libraries docs).yaml
tree docs = record { depth = depth; get_le = get-le; elements_lt = elements-lt }

read-total_example :
    (x : Bool × ReaderState String) × (read (libraries documents) 6 (empty_collector, config)
      ≡ some x)
read-total_example =
    read-total (libraries documents) (tree documents) 6 (empty_collector, config) (omega arith, tt)

names_of : Option (Bool × ReaderState String) → Option (Bool × (List String × List String))
names_of none = none
names_of (some (b, (c, cfg))) =
    some (b, (map (λ i. i.name) c.m_list_infos.m_entries, map (λ e. e.msg) cfg.res.errors))

-- The first list is collected, and the second one is refused.
reads :
    names_of (read (libraries documents) 6 (empty_collector, config))
    ≡ some (false, ("shells" ∷ [], "Item has no mapping for key 'items'" ∷ []))
unfolding read read_documents read_document read_items read_item read_list read_append read_override
    decode_val_generic decode_elements decode_seq decode_overrides continue_with ◌>>=◌ pure throw_if
    or_throw or_fail located finish_call collect warn names_of apply define_list define_info at find
    insert assign context_name add_location node_context conclude record_error add_error string_eq
    list_eq ℕ_discrete
reads = refl

abbrev read_lists : Option (Bool × ReaderState String)
unfolding read read_documents read_document read_items read_item read_list read_append read_override
    decode_val_generic decode_elements decode_seq decode_overrides continue_with ◌>>=◌ pure throw_if
    or_throw or_fail located finish_call collect warn apply define_list define_info at find insert
    assign context_name add_location node_context conclude record_error add_error string_eq list_eq
    ℕ_discrete
read_lists = read (libraries documents) 6 (empty_collector, config)

answer_of : Option (Bool × ReaderState String) → Bool × ReaderState String
answer_of none = (false, (empty_collector, config))
answer_of (some x) = x

state_read : ReaderState String
unfolding read_lists answer_of
state_read = (answer_of read_lists).1

reads_whole : read (libraries documents) 6 (empty_collector, config) ≡ some (false, state_read)
unfolding read read_documents read_document read_items read_item read_list read_append read_override
    decode_val_generic decode_elements decode_seq decode_overrides continue_with ◌>>=◌ pure throw_if
    or_throw or_fail located finish_call collect warn apply define_list define_info at find insert
    assign context_name add_location node_context conclude record_error add_error string_eq list_eq
    ℕ_discrete answer_of state_read
reads_whole = refl

read-IsTraced_example :
    (t : ReaderState String) × IsTraced (libraries documents) (empty_collector, config) t
    × IsConcluded (libraries documents) false t state_read
read-IsTraced_example =
    read-IsTraced (libraries documents) 6 (empty_collector, config) state_read false reads_whole

read-errors_example : (state_read.1.res.success ≡ false) × (length state_read.1.res.errors ≡ 1)
unfolding state_read
read-errors_example =
    read-errors (libraries documents) 6 (empty_collector, config) state_read false reads_whole refl

abbrev shells : ListInfo
shells = record (new_list (new_context "rules.yaml")) { name = "shells"; items = "bash" ∷ [] }

-- A warning, and then a call.
Trace-IsOrdered_example :
    IsOrdered
      (after_call (
        apply versions ("=" ∷ "in" ∷ []) (defines_list shells) (
          warned
            (libraries [])
            load_unknown_item
            "?"
            (new_context "rules.yaml")
            (clear empty_collector, config)))).0
unfolding clear
Trace-IsOrdered_example =
    Trace-IsOrdered (libraries [])
      (warns load_unknown_item "?" (new_context "rules.yaml") (clear empty_collector, config)
        (calls (defines_list shells)
          (warned (libraries []) load_unknown_item "?" (new_context "rules.yaml")
            (clear empty_collector, config))
          (ends _)))
      (omega arith) (clear-IsOrdered empty_collector)
