-- ===== src/Tests/AppTests.antt =====
-- The watcher of userspace/falco/app/restart_handler.cpp and the statistics of
-- userspace/engine/stats_manager.cpp on concrete inputs.
use falco.Prelude.{
  ◌≡◌, refl, ◌↔◌, true, false, none, List, [], ◌∷◌, arith, nat_eq, string_eq, list_eq,
}
use falco.Rule.{FalcoRule}
use falco.RestartHandler.{
  timed_out, ready, no_data, some_data, Iteration, Watcher, continues, triggered, on_quiet,
  dismissed, due, on_read, watch_turn, watch_turns, watcher_loop,
}
use falco.RestartHandler.Restarts.{
  Reaches, start, turn, is_quiet, has_passed, watch_turn-triggered_iff, watch_turns-restarts,
}
use falco.RestartHandler.Forced.{
  selecting, Watching, WatchStep, triggers, moves, start_turn, select_turn, finish_turn,
  advance_watcher, watch_step, watch_steps,
}
use falco.Stats.{new_stats, on_event, on_rule_loaded, extend, push_zeros}
use falco.Stats.Totals.{IsBalanced, Call, run_call, run_calls, run_calls-IsBalanced}

abbrev quiet : Iteration
quiet = record { m_stop = false; rv = timed_out; forced = false; on_check = true; n = no_data }

abbrev changed : Iteration
changed = record quiet { rv = ready; n = some_data }

-- A change of the files during the dry run puts the restart off.
debounced :
    watcher_loop true (changed ∷ quiet ∷ changed ∷ quiet ∷ [])
    ≡ continues (record { should_check = false; should_restart = true })
unfolding watcher_loop watch_turns watch_turn on_read on_quiet
debounced = refl

restarts : watcher_loop true (changed ∷ quiet ∷ quiet ∷ []) ≡ triggered
unfolding watcher_loop watch_turns watch_turn on_read on_quiet
restarts = refl

abbrev passed : Watcher
passed = record { should_check = false; should_restart = true }

reaches_passed : Reaches (quiet ∷ changed ∷ []) passed
unfolding watch_turn on_read on_quiet
reaches_passed = turn quiet passed (turn changed due start refl) refl

watch_turn-triggered_iff_example :
    (watch_turn quiet passed ≡ triggered)
    ↔ (is_quiet quiet ≡ true) × (has_passed (quiet ∷ changed ∷ []) ≡ true)
watch_turn-triggered_iff_example =
    watch_turn-triggered_iff (quiet ∷ changed ∷ []) passed quiet reaches_passed

watch_turns-restarts_example :
    watch_turns (changed ∷ quiet ∷ quiet ∷ changed ∷ []) dismissed ≡ triggered
watch_turns-restarts_example =
    watch_turns-restarts changed quiet quiet (changed ∷ []) dismissed refl refl refl refl

abbrev no_request : Watching
no_request = record { m_forced = false; place = selecting; watcher = dismissed; served = 0 }

-- A turn of the watcher, with a request in its middle.
abbrev one_turn : List WatchStep
one_turn = moves quiet ∷ triggers ∷ moves quiet ∷ moves quiet ∷ moves quiet ∷ moves quiet ∷ []

serves_once : (watch_steps (triggers ∷ one_turn) no_request).served ≡ 1
unfolding watch_steps watch_step advance_watcher start_turn select_turn finish_turn watch_turn
serves_once = refl

-- The request comes after the load of the flag.
serves_none : (watch_steps (moves quiet ∷ moves quiet ∷ triggers ∷ one_turn) no_request).served ≡ 0
unfolding watch_steps watch_step advance_watcher start_turn select_turn finish_turn watch_turn
    on_quiet
serves_none = refl

abbrev some_rule : FalcoRule
some_rule = record {
  id = 2;
  source = "syscall";
  name = "shell";
  description = "d";
  output = "o";
  tags = [];
  exception_fields = [];
  priority = 5;
  condition = none;
  filter = none;
}

abbrev calls : List Call
calls = Call.loads some_rule ∷ Call.counts some_rule ∷ Call.counts some_rule ∷ []

counts_two : (run_calls calls new_stats).m_total ≡ 2
unfolding run_calls run_call on_event on_rule_loaded extend push_zeros
counts_two = refl

run_calls-IsBalanced_example : IsBalanced (run_calls calls new_stats)
run_calls-IsBalanced_example = run_calls-IsBalanced calls new_stats (omega arith) (refl, refl)
