-- ===== src/EventDrops.antt =====
-- userspace/falco/event_drops.cpp: the actions on dropped system calls. The token bucket and the
-- comparison of two `double`s are parameters.
pub mod Actions
use falco.Prelude.{
  ℕ, zero, suc, ◌+◌, ◌-◌, ◌*◌, ◌/◌, ◌%◌, ◌^◌, ◌≤◌, ◌<◌, String, ◌<>◌, ◌≡◌, refl, sym, ap, ◌∙◌,
  subst, ◌≢◌, ◌↔◌, ◌⊎◌, inl, inr, ite, Bool, true, false, not, ◌&&◌, ◌||◌, Option, none, some, List,
  [], ◌∷◌, ◌++◌, map, arith, dec_lt, dec_le, ℕ_discrete, ltb, leb, if◌then◌else◌, ltb→lt, lt→ltb,
  leb→le, le→leb, tests, Bool-cases, Option-cases, Eq, ◌==◌, ==_self, ==_ne, ==_cases, nat_eq,
  string_eq, list_eq, contains, contains-append, nil-ne-cons, cons-ne-nil, length, get_elem?, set,
  replicate, take, drop, length-append, length-set, get_elem?-set_self, get_elem?-set_ne,
  get_elem?-append_lt, get_elem?-append_end, get_elem?-eq_some, get_elem?-lt, length-map,
  insert_sorted, erase, contains-insert_sorted, IsNodup, contains-erase, erase-IsNodup,
  append-IsNodup, IsIncreasing, insert_sorted-IsIncreasing, erase-IsIncreasing,
  IsIncreasing-IsNodup, ◌>>=◌, >>=-eq-some, take-append-drop, All, All-append, All-append_right,
  All-append_left, Member,
}

pub data SyscallEvtDropAction : Type 0 where
  disregard : SyscallEvtDropAction
  log : SyscallEvtDropAction
  alert : SyscallEvtDropAction
  exit : SyscallEvtDropAction

-- `scap_stats`, with counters of 64 bits
pub record ScapStats : Type 0 where
  pub n_evts : ℕ
  pub n_drops : ℕ
  pub n_drops_buffer : ℕ
  pub n_drops_buffer_clone_fork_enter : ℕ
  pub n_drops_buffer_clone_fork_exit : ℕ
  pub n_drops_buffer_execve_enter : ℕ
  pub n_drops_buffer_execve_exit : ℕ
  pub n_drops_buffer_connect_enter : ℕ
  pub n_drops_buffer_connect_exit : ℕ
  pub n_drops_buffer_open_enter : ℕ
  pub n_drops_buffer_open_exit : ℕ
  pub n_drops_buffer_dir_file_enter : ℕ
  pub n_drops_buffer_dir_file_exit : ℕ
  pub n_drops_buffer_other_interest_enter : ℕ
  pub n_drops_buffer_other_interest_exit : ℕ
  pub n_drops_buffer_close_exit : ℕ
  pub n_drops_buffer_proc_exit : ℕ
  pub n_drops_scratch_map : ℕ
  pub n_drops_pf : ℕ
  pub n_drops_bug : ℕ
  pub n_preemptions : ℕ
  pub n_suppressed : ℕ
  pub n_tids_suppressed : ℕ

-- `a - b` of two `uint64_t`
abbrev pub minus : ℕ → ℕ → ℕ
minus a b = (a + (2 ^ 64 - b)) % 2 ^ 64

abbrev pub increment : ℕ → ℕ
increment n = (n + 1) % 2 ^ 64

abbrev pub one_second_in_ns : ℕ
one_second_in_ns = 1000000000

unfoldable pub stats_delta : ScapStats → ScapStats → ScapStats
stats_delta stats last = record {
  n_evts = minus stats.n_evts last.n_evts;
  n_drops = minus stats.n_drops last.n_drops;
  n_drops_buffer = minus stats.n_drops_buffer last.n_drops_buffer;
  n_drops_buffer_clone_fork_enter =
      minus stats.n_drops_buffer_clone_fork_enter last.n_drops_buffer_clone_fork_enter;
  n_drops_buffer_clone_fork_exit =
      minus stats.n_drops_buffer_clone_fork_exit last.n_drops_buffer_clone_fork_exit;
  n_drops_buffer_execve_enter =
      minus stats.n_drops_buffer_execve_enter last.n_drops_buffer_execve_enter;
  n_drops_buffer_execve_exit =
      minus stats.n_drops_buffer_execve_exit last.n_drops_buffer_execve_exit;
  n_drops_buffer_connect_enter =
      minus stats.n_drops_buffer_connect_enter last.n_drops_buffer_connect_enter;
  n_drops_buffer_connect_exit =
      minus stats.n_drops_buffer_connect_exit last.n_drops_buffer_connect_exit;
  n_drops_buffer_open_enter = minus stats.n_drops_buffer_open_enter last.n_drops_buffer_open_enter;
  n_drops_buffer_open_exit = minus stats.n_drops_buffer_open_exit last.n_drops_buffer_open_exit;
  n_drops_buffer_dir_file_enter =
      minus stats.n_drops_buffer_dir_file_enter last.n_drops_buffer_dir_file_enter;
  n_drops_buffer_dir_file_exit =
      minus stats.n_drops_buffer_dir_file_exit last.n_drops_buffer_dir_file_exit;
  n_drops_buffer_other_interest_enter =
      minus stats.n_drops_buffer_other_interest_enter last.n_drops_buffer_other_interest_enter;
  n_drops_buffer_other_interest_exit =
      minus stats.n_drops_buffer_other_interest_exit last.n_drops_buffer_other_interest_exit;
  n_drops_buffer_close_exit = minus stats.n_drops_buffer_close_exit last.n_drops_buffer_close_exit;
  n_drops_buffer_proc_exit = minus stats.n_drops_buffer_proc_exit last.n_drops_buffer_proc_exit;
  n_drops_scratch_map = minus stats.n_drops_scratch_map last.n_drops_scratch_map;
  n_drops_pf = minus stats.n_drops_pf last.n_drops_pf;
  n_drops_bug = minus stats.n_drops_bug last.n_drops_bug;
  n_preemptions = minus stats.n_preemptions last.n_preemptions;
  n_suppressed = minus stats.n_suppressed last.n_suppressed;
  n_tids_suppressed = minus stats.n_tids_suppressed last.n_tids_suppressed;
}

-- What is logged, and the alert that is sent with the numbers of the delta.
pub data Effect : Type 0 where
  logged_simulation : Effect
  logged_depleted : Effect
  logged_drops : (n_drops : ℕ) → Effect
  logged_exit : (n_drops : ℕ) → Effect
  alerted : (now : ℕ) → ScapStats → (bpf_enabled : Bool) → Effect

pub record SyscallEvtDropMgr (Bucket Double : Type 0) : Type 0 where
  pub m_num_syscall_evt_drops : ℕ
  pub m_num_actions : ℕ
  pub m_actions : List SyscallEvtDropAction
  pub m_bucket : Bucket
  pub m_next_check_ts : ℕ
  pub m_last_stats : ScapStats
  pub m_simulate_drops : Bool
  pub m_threshold : Double

-- The loop over the actions, in the order in which the set gives them.
unfoldable pub perform_actions :
    ℕ → ScapStats → Bool → List SyscallEvtDropAction → List Effect × Bool
perform_actions now delta bpf_enabled [] = ([], true)
perform_actions now delta bpf_enabled (disregard ∷ acts) = ([], true)
perform_actions now delta bpf_enabled (log ∷ acts) = (logged_drops delta.n_drops ∷ [], true)
perform_actions now delta bpf_enabled (alert ∷ acts) = (alerted now delta bpf_enabled ∷ [], true)
perform_actions now delta bpf_enabled (exit ∷ acts) = (logged_exit delta.n_drops ∷ [], false)

-- The manager, what was logged and sent, and whether the processing of events goes on.
pub record Processed (Bucket Double : Type 0) : Type 0 where
  pub mgr : SyscallEvtDropMgr Bucket Double
  pub effects : List Effect
  pub goes_on : Bool

module _ {Bucket Double : Type 0} where
  -- `bucket` is the initialised one, and `stats` what `get_capture_stats` gives.
  unfoldable pub init :
      Double
      → List SyscallEvtDropAction
      → Double
      → Bucket
      → ScapStats
      → Bool
      → SyscallEvtDropMgr Bucket Double
      → SyscallEvtDropMgr Bucket Double
  init zero_threshold actions threshold bucket stats simulate_drops m = record m {
    m_actions = actions;
    m_bucket = bucket;
    m_threshold = if simulate_drops then zero_threshold else threshold;
    m_last_stats = stats;
    m_simulate_drops = simulate_drops;
  }

  -- The drops since the last check; a simulated one is added.
  unfoldable pub new_delta : ScapStats → SyscallEvtDropMgr Bucket Double → ScapStats
  new_delta stats m =
      let delta = stats_delta stats m.m_last_stats in
      if m.m_simulate_drops then record delta { n_drops = increment delta.n_drops } else delta

  -- The time of the next check, which the first event sets.
  unfoldable pub next_check : ℕ → SyscallEvtDropMgr Bucket Double → ℕ
  next_check ts m =
      if m.m_next_check_ts == 0 then (ts + one_second_in_ns) % 2 ^ 64 else m.m_next_check_ts

  module _ (claim : ℕ → ℕ → Bucket → Bucket × Bool) (is_above : ℕ → ℕ → Double → Bool) where
    -- There were new drops in the last second.
    unfoldable pub claim_actions :
        ℕ → ScapStats → Bool → SyscallEvtDropMgr Bucket Double → Processed Bucket Double
    claim_actions ts delta bpf_enabled m =
        let claimed = claim 1 ts m.m_bucket in
        let counted = record m {
          m_num_syscall_evt_drops = increment m.m_num_syscall_evt_drops;
          m_bucket = claimed.0;
        } in
        let performed = perform_actions ts delta bpf_enabled m.m_actions in
        if claimed.1
        then record {
          mgr = record counted { m_num_actions = increment m.m_num_actions };
          effects = performed.0;
          goes_on = performed.1;
        }
        else record { mgr = counted; effects = logged_depleted ∷ []; goes_on = true }

    unfoldable pub check_drops :
        ℕ → ScapStats → Bool → SyscallEvtDropMgr Bucket Double → Processed Bucket Double
    check_drops ts delta bpf_enabled m =
        if ltb 0 delta.n_drops && is_above delta.n_drops delta.n_evts m.m_threshold
        then claim_actions ts delta bpf_enabled m
        else record { mgr = m; effects = []; goes_on = true }

    -- The check, with the log line of a simulated drop before its effects.
    unfoldable pub check_stats :
        ℕ → ScapStats → Bool → SyscallEvtDropMgr Bucket Double → Processed Bucket Double
    check_stats ts stats bpf_enabled m =
        let checked =
          check_drops ts (new_delta stats m) bpf_enabled (record m {
            m_next_check_ts = (ts + one_second_in_ns) % 2 ^ 64;
            m_last_stats = stats;
          }) in
        record checked {
          effects =
              if m.m_simulate_drops then logged_simulation ∷ checked.effects else checked.effects;
        }

    unfoldable pub process_event :
        ℕ → ScapStats → Bool → SyscallEvtDropMgr Bucket Double → Processed Bucket Double
    process_event ts stats bpf_enabled m =
        if ltb (next_check ts m) ts then check_stats ts stats bpf_enabled m else record {
          mgr = record m { m_next_check_ts = next_check ts m };
          effects = [];
          goes_on = true;
        }
