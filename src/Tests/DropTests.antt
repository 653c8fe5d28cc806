-- ===== src/Tests/DropTests.antt =====
-- Dropped events in userspace/falco/event_drops.cpp.
use falco.Prelude.{
  ℕ, zero, suc, ◌*◌, ◌≡◌, refl, ◌↔◌, Bool, true, false, not, List, [], ◌∷◌, ℕ_discrete, ltb, nat_eq,
  string_eq, list_eq,
}
use falco.EventDrops.{
  SyscallEvtDropAction, log, exit, alert, ScapStats, stats_delta, logged_drops, SyscallEvtDropMgr,
  perform_actions, claim_actions, check_drops, check_stats, new_delta, next_check, process_event,
}
use falco.EventDrops.Actions.{perform_actions-first, process_event-stops, stops}

abbrev no_stats : ScapStats
no_stats = record {
  n_evts = 0;
  n_drops = 0;
  n_drops_buffer = 0;
  n_drops_buffer_clone_fork_enter = 0;
  n_drops_buffer_clone_fork_exit = 0;
  n_drops_buffer_execve_enter = 0;
  n_drops_buffer_execve_exit = 0;
  n_drops_buffer_connect_enter = 0;
  n_drops_buffer_connect_exit = 0;
  n_drops_buffer_open_enter = 0;
  n_drops_buffer_open_exit = 0;
  n_drops_buffer_dir_file_enter = 0;
  n_drops_buffer_dir_file_exit = 0;
  n_drops_buffer_other_interest_enter = 0;
  n_drops_buffer_other_interest_exit = 0;
  n_drops_buffer_close_exit = 0;
  n_drops_buffer_proc_exit = 0;
  n_drops_scratch_map = 0;
  n_drops_pf = 0;
  n_drops_bug = 0;
  n_preemptions = 0;
  n_suppressed = 0;
  n_tids_suppressed = 0;
}

abbrev dropped : ScapStats
dropped = record no_stats { n_evts = 100; n_drops = 10 }

-- A bucket of tokens, and a threshold in percent.
abbrev take_token : ℕ → ℕ → ℕ → ℕ × Bool
take_token tokens now zero = (zero, false)
take_token tokens now (suc n) = (n, true)

abbrev above : ℕ → ℕ → ℕ → Bool
above n_drops n_evts threshold = ltb (threshold * n_evts) (100 * n_drops)

abbrev manager : List SyscallEvtDropAction → SyscallEvtDropMgr ℕ ℕ
manager actions = record {
  m_num_syscall_evt_drops = 0;
  m_num_actions = 0;
  m_actions = actions;
  m_bucket = 1;
  m_next_check_ts = 1000;
  m_last_stats = no_stats;
  m_simulate_drops = false;
  m_threshold = 5;
}

logs_only :
    (process_event take_token above 2000 dropped false (manager (log ∷ alert ∷ exit ∷ []))).effects
    ≡ logged_drops 10 ∷ []
unfolding process_event check_stats check_drops claim_actions new_delta next_check stats_delta
    perform_actions ℕ_discrete
logs_only = refl

exits :
    (process_event take_token above 2000 dropped false (manager (exit ∷ log ∷ []))).goes_on ≡ false
unfolding process_event check_stats check_drops claim_actions new_delta next_check stats_delta
    perform_actions ℕ_discrete
exits = refl

perform_actions-first_example :
    (perform_actions 2000 dropped false (log ∷ alert ∷ [])
      ≡ perform_actions 2000 dropped false (log ∷ []))
    × (((perform_actions 2000 dropped false (log ∷ alert ∷ [])).1 ≡ false) ↔ (log ≡ exit))
perform_actions-first_example = perform_actions-first 2000 dropped false log (alert ∷ [])

process_event-stops_example :
    (process_event take_token above 2000 dropped false (manager (exit ∷ []))).goes_on
    ≡ not (stops take_token above 2000 dropped (manager (exit ∷ [])))
process_event-stops_example =
    process_event-stops take_token above 2000 dropped false (manager (exit ∷ []))
