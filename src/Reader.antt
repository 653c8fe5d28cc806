-- ===== src/Reader.antt =====
-- userspace/engine/rule_loader_reader.cpp: what the reader of rules files works with: the nodes of
-- yaml-cpp, the other libraries, and its actions on the collector and on the configuration.
pub mod Values
pub mod Exceptions
pub mod Items
pub mod RuleUpdates
pub mod RuleItems
pub mod Documents
pub mod Closed
pub mod ClosedItems
pub mod ClosedDocuments
pub mod ClosedEntries
pub mod Trace
pub mod Answer
pub mod Finishes
use falco.Prelude.{
  ℕ, zero, suc, ◌+◌, ◌-◌, ◌*◌, ◌/◌, ◌%◌, ◌^◌, ◌≤◌, ◌<◌, String, ◌<>◌, ◌≡◌, refl, sym, ap, ◌∙◌,
  subst, ◌≢◌, ◌↔◌, ◌⊎◌, inl, inr, ite, Bool, true, false, not, ◌&&◌, ◌||◌, Option, none, some, List,
  [], ◌∷◌, ◌++◌, map, arith, dec_lt, dec_le, ℕ_discrete, ltb, leb, if◌then◌else◌, ltb→lt, lt→ltb,
  leb→le, le→leb, tests, Bool-cases, Option-cases, Eq, ◌==◌, ==_self, ==_ne, ==_cases, nat_eq,
  string_eq, list_eq, contains, contains-append, nil-ne-cons, cons-ne-nil, length, get_elem?, set,
  replicate, take, drop, length-append, length-set, get_elem?-set_self, get_elem?-set_ne,
  get_elem?-append_lt, get_elem?-append_end, get_elem?-eq_some, get_elem?-lt, length-map,
  insert_sorted, erase, contains-insert_sorted, IsNodup, contains-erase, erase-IsNodup,
  append-IsNodup, IsIncreasing, insert_sorted-IsIncreasing, erase-IsIncreasing,
  IsIncreasing-IsNodup, take-append-drop, All, All-append, All-append_right, All-append_left,
  Member,
}
use falco.LoadInfo.{
  ItemType, Position, Context, Configuration, RuleLoadException, load_err_yaml_validate,
  WarningCode, add_warning,
}
use falco.LoadInfo.Contexts.{node_context}
use falco.Collector.{Result, done, threw, Collector, SinspVersions}
use falco.Collector.Sequence.{Operation, apply}

-- An exception that is not one of the loader's own.
pub data Failure : Type 0 where
  parser_exception : (mark : Position) → (what : String) → Failure
  std_exception : (what : String) → Failure
  unknown_exception : Failure

-- `YAML::Node`, with the conversions to the types that are read. A missing key gives a node that is
-- not defined. `pairs` is the iteration over keys and values, `elements` that over the elements.
pub record Yaml (Node : Type 0) : Type 0 where
  pub is_defined : Node → Bool
  pub is_null : Node → Bool
  pub is_scalar : Node → Bool
  pub is_sequence : Node → Bool
  pub is_map : Node → Bool
  pub scalar : Node → String
  pub get : String → Node → Node
  pub elements : Node → List Node
  pub pairs : Node → List (Node × Node)
  pub mark : Node → Position
  pub decode_string : Node → Option String
  pub decode_bool : Node → Option Bool
  pub decode_uint32 : Node → Option ℕ
  -- `as<std::string>()`
  pub as_string : Node → Failure ⊎ String
  pub load_all : String → Failure ⊎ List Node

-- What the reader uses beside the nodes.
pub record Libraries (Node SinspVersion : Type 0) : Type 0 where
  pub yaml : Yaml Node
  pub sinsp : SinspVersions SinspVersion
  pub supported_operators : List String
  pub trim : String → String
  -- `RE2::FullMatch` with the patterns of names
  pub match_identifier : String → Bool
  pub match_barestr : String → Bool
  pub syscall_source : String

-- What an action does: the state that it leaves, with its value or the exception that it throws.
-- `unfinished` is the end of the fuel.
pub data Outcome (S A : Type 0) : Type 0 where
  returned : A → S → Outcome S A
  raised : RuleLoadException → S → Outcome S A
  failed : Failure → S → Outcome S A
  unfinished : S → Outcome S A

abbrev pub after : {S A : Type 0} → Outcome S A → S
after (returned a s) = s
after (raised err s) = s
after (failed f s) = s
after (unfinished s) = s

abbrev pub Reading : Type 0 → Type 0 → Type 0
Reading S A = S → Outcome S A

module _ {S : Type 0} where
  unfoldable pub continue_with : {A B : Type 0} → Outcome S A → (A → Reading S B) → Outcome S B
  continue_with (returned a s) f = f a s
  continue_with (raised err s) f = raised err s
  continue_with (failed e s) f = failed e s
  continue_with (unfinished s) f = unfinished s

  infixl 5 ◌>>=◌ ◌>>◌
  unfoldable pub ◌>>=◌ : {A B : Type 0} → Reading S A → (A → Reading S B) → Reading S B
  unfolding continue_with
  ◌>>=◌ m f s = continue_with (m s) f

  abbrev pub ◌>>◌ : {A B : Type 0} → Reading S A → Reading S B → Reading S B
  ◌>>◌ m k = m >>= λ _. k

  unfoldable pub pure : {A : Type 0} → A → Reading S A
  pure a s = returned a s

  -- `THROW`
  unfoldable pub throw_if : Bool → String → Context → Reading S (Unit {0})
  throw_if cond msg ctx s =
      if cond
      then raised (record { ec = load_err_yaml_validate; msg = msg; ctx = ctx }) s
      else returned tt s

  -- `THROW` of what could not be decoded.
  unfoldable pub or_throw : {A : Type 0} → Option A → String → Context → Reading S A
  or_throw none msg ctx s = raised (record { ec = load_err_yaml_validate; msg = msg; ctx = ctx }) s
  or_throw (some a) msg ctx s = returned a s

  -- The end of the fuel.
  unfoldable pub stop : {A : Type 0} → Reading S A
  stop s = unfinished s

  unfoldable pub or_fail : {A : Type 0} → Failure ⊎ A → Reading S A
  or_fail (inl f) s = failed f s
  or_fail (inr a) s = returned a s

  -- The exception of `context::name`.
  unfoldable pub located : Option Context → Reading S Context
  located none s = failed (std_exception "rule_loader::context without location?") s
  located (some ctx) s = returned ctx s

  -- `catch(std::exception&)`, which an exception of the loader is.
  unfoldable pub handle : {A : Type 0} → Outcome S A → Reading S A → Outcome S A
  handle (returned a s) k = returned a s
  handle (raised err s) k = k s
  handle (failed (parser_exception m w) s) k = k s
  handle (failed (std_exception w) s) k = k s
  handle (failed unknown_exception s) k = failed unknown_exception s
  handle (unfinished s) k = unfinished s

  unfoldable pub catch_std : {A : Type 0} → Reading S A → Reading S A → Reading S A
  unfolding handle
  catch_std m k s = handle (m s) k

-- The collector and the configuration, whose result gets the warnings.
abbrev pub ReaderState : Type 0 → Type 0
ReaderState SinspVersion = Collector SinspVersion × Configuration

unfoldable pub finish_call : {S : Type 0} → Result S → Outcome S (Unit {0})
finish_call (done s) = returned tt s
finish_call (threw err s) = raised err s

module _ {Node SinspVersion : Type 0} (lib : Libraries Node SinspVersion) where
  -- A call of the collector.
  unfoldable pub collect : Operation SinspVersion → Reading (ReaderState SinspVersion) (Unit {0})
  unfolding finish_call
  collect op s = finish_call (apply lib.sinsp lib.supported_operators op s)

  unfoldable pub warn :
      WarningCode → String → Context → Reading (ReaderState SinspVersion) (Unit {0})
  warn wc msg ctx (c, cfg) = returned tt (c, record cfg { res = add_warning wc msg ctx cfg.res })

  -- The context of a node.
  abbrev pub context_of :
      Node → ItemType → String → Context → Reading (ReaderState SinspVersion) Context
  context_of node item_type item_name parent =
      located (node_context (lib.yaml.mark node) item_type item_name parent)
