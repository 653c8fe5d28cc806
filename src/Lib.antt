-- ===== src/Lib.antt =====
-- Falco's rule engine: a verification library for the code that stores the rules, decides which of
-- them an event matches, and reloads them.
--
-- The rules of Falco are read from YAML documents by the reader, which gives them as infos to the
-- collector. The compiler expands the lists and macros in the conditions of the infos, and gives
-- the rules with their filters to the engine. The engine adds them to the ruleset of their source,
-- where they are enabled by name or by tag, runs the ruleset on each event, and counts what matched
-- in the statistics; the restart handler asks for a restart when the files change. The modules
-- follow these parts:
--
-- - IndexedVector: userspace/engine/indexed_vector.h. The vector and the map from names to numbers
--   are a list and an association list; `update` is a write through the pointer that `at` gives.
-- - Wildcard: `matches_wildcard` of userspace/engine/falco_utils.cpp, over the byte lists and the
--   operations of `std::string` in ByteString. The recursion is on fuel, one more than the length
--   of the pattern: each call is on a shorter one.
-- - Filter, MacroResolver: userspace/engine/filter_macro_resolver.cpp over the syntax trees of
--   libsinsp. The visitor's members are a state that is passed along, `m_node_substitute` is part
--   of what a visit gives, and the clone of a macro's tree is visited on one level of fuel less.
--   The fuel is the number of macros and one, since the path holds each macro at most once.
-- - Details: userspace/engine/filter_details_resolver.cpp, on the same trees.
-- - Rule: the rule of userspace/engine/falco_rule.h.
-- - Ruleset: userspace/engine/indexable_ruleset.h and evttype_index_ruleset.cpp. The shared
--   pointers to the wrappers are numbers, and `deref` gives what they point at. The child Rulesets
--   has the operations on all rulesets; a compiled filter is what its `run` gives on an event.
-- - LoadInfo, RuleInfo: the infos, the codes and the results of userspace/engine/rule_loader.h, and
--   the contexts, snippets and texts of rule_loader.cpp and falco_load_result.cpp in its children.
--   The content of a file is a list of bytes, and `size_t` wraps around in a snippet.
-- - Reader: userspace/engine/rule_loader_reader.cpp. The nodes of yaml-cpp and the versions of
--   libsinsp are parameters. A call gives an `Outcome`: a value, the exception of a wrong object,
--   another exception, or the end of the fuel, each with the state that was reached. The fuel bounds
--   the depth of nested sequences: one more than the depth of the documents is enough, since each
--   call is on a node of the one before.
-- - Collector: userspace/engine/rule_loader_collector.cpp. A call gives the new state, or the
--   exception and the state that was reached before it, since the code writes some members before
--   it throws. The operators and the versions of libsinsp are parameters. The counter is 32 bits
--   wide and wraps around; `std::set` is a list in which each element stands once.
-- - Compiler: userspace/engine/rule_loader_compiler.cpp. Conditions has the exceptions of a rule,
--   ListReferences the replacement of a list's name in a text, on lists of characters and with as
--   much fuel as characters and one; Filters and Rules compile macros and rules. The parser, the
--   formatters and the filter compiler of libsinsp, and the resolver of warnings, are parameters;
--   the use of a null pointer is an exception of which nothing is known.
-- - Engine: userspace/engine/falco_engine.cpp. Rulesets are what the interface of
--   userspace/engine/filter_ruleset.h promises: a state, and functions of it. The condition and the
--   filter are members of a rule. The pointer to the source of the system calls, which is kept
--   between events, is taken to point at its entry. Whether the sampling drops an event is an
--   argument.
-- - FalcoCommon: userspace/engine/falco_common.cpp, with `strcasecmp` of the C locale,
--   which reads a text up to its first NUL.
-- - Stats: userspace/engine/stats_manager.cpp, with counters of 64 bits that wrap around.
-- - RestartHandler: the loop of the watcher of userspace/falco/app/restart_handler.cpp. What
--   `select`, `read` and the dry run answer in a turn is data, and the loop runs over a list of
--   turns. The child Forced has the steps of a turn between which other threads may call `trigger`.
-- - EventDrops: userspace/falco/event_drops.cpp. The token bucket and the comparison of two `double`s
--   are parameters; what is logged and sent is a list of effects.
-- - SignalHandler: userspace/falco/atomic_signal_handler.h. A thread's place in `reset`, `trigger`
--   or `handle` is data, a step is one atomic access or one use of the mutex, and a list of threads
--   with their actions is an interleaving; a thread that cannot take its step waits. An action may
--   throw a `std::exception`, which `handle` catches, or anything else, which it does not.
--
-- Prelude holds the names and lemmas that all modules share, Tests the runs on concrete inputs.
--
-- Each module has its definitions at its root, and its theorems in children named for what they
-- prove. A pointer that may be null and a call that may throw give an `Option` or a result type of
-- the module. The interface `Info` of Collector gives what the three kinds of infos share.
--
-- Not modelled: the parsing of YAML, the parsing and running of filters in libsinsp, the description
-- of rules and results as JSON, the warnings about a filter, the configuration, the outputs, and the
-- gRPC and web servers. The allocation of memory never fails, and `size_t` is unbounded except where
-- it is said to wrap around.

pub mod Prelude
pub mod ByteString
pub mod IndexedVector
pub mod Wildcard
pub mod Filter
pub mod MacroResolver
pub mod Rule
pub mod Ruleset
pub mod LoadInfo
pub mod RuleInfo
pub mod Collector
pub mod RestartHandler
pub mod Stats
pub mod SignalHandler
pub mod FalcoCommon
pub mod EventDrops
pub mod Compiler
pub mod Details
pub mod Engine
pub mod Reader
pub mod Tests
