-- ===== src/EventDrops/Actions.antt =====
-- userspace/falco/event_drops.cpp: which actions are taken, and when the processing stops.
use falco.Prelude.{
  ℕ, ◌+◌, ◌%◌, ◌^◌, ◌≡◌, refl, ◌↔◌, inl, inr, Bool, true, false, not, ◌&&◌, List, [], ◌∷◌, ltb,
  Bool-cases, nat_eq, string_eq, list_eq,
}
use falco.EventDrops.{
  SyscallEvtDropAction, disregard, log, alert, exit, ScapStats, SyscallEvtDropMgr, perform_actions,
  claim_actions, check_drops, new_delta, next_check, process_event, check_stats, one_second_in_ns,
}

-- Only the first action is performed, and the processing stops exactly if it is the exit.
pub perform_actions-first :
    (now : ℕ) (delta : ScapStats) (bpf_enabled : Bool) (act : SyscallEvtDropAction)
    (acts : List SyscallEvtDropAction)
    → (perform_actions now delta bpf_enabled (act ∷ acts)
        ≡ perform_actions now delta bpf_enabled (act ∷ []))
      × (((perform_actions now delta bpf_enabled (act ∷ acts)).1 ≡ false) ↔ (act ≡ exit))
unfolding perform_actions
perform_actions-first now delta bpf disregard acts = (refl, (λ h. cc, λ h. cc))
perform_actions-first now delta bpf log acts = (refl, (λ h. cc, λ h. cc))
perform_actions-first now delta bpf alert acts = (refl, (λ h. cc, λ h. cc))
perform_actions-first now delta bpf exit acts = (refl, (λ h. refl, λ h. refl))

abbrev pub is_exit : List SyscallEvtDropAction → Bool
is_exit [] = false
is_exit (disregard ∷ acts) = false
is_exit (log ∷ acts) = false
is_exit (alert ∷ acts) = false
is_exit (exit ∷ acts) = true

perform_actions-goes_on :
    (now : ℕ) (delta : ScapStats) (bpf_enabled : Bool) (acts : List SyscallEvtDropAction)
    → (perform_actions now delta bpf_enabled acts).1 ≡ not (is_exit acts)
unfolding perform_actions
perform_actions-goes_on now delta bpf [] = refl
perform_actions-goes_on now delta bpf (disregard ∷ acts) = refl
perform_actions-goes_on now delta bpf (log ∷ acts) = refl
perform_actions-goes_on now delta bpf (alert ∷ acts) = refl
perform_actions-goes_on now delta bpf (exit ∷ acts) = refl

module _ {Bucket Double : Type 0} (claim : ℕ → ℕ → Bucket → Bucket × Bool)
    (is_above : ℕ → ℕ → Double → Bool) where
  -- A check is due, there were drops above the threshold, the bucket has a token, and the first
  -- action is the exit.
  abbrev pub stops : ℕ → ScapStats → SyscallEvtDropMgr Bucket Double → Bool
  stops ts stats m =
      ltb (next_check ts m) ts
      && ((ltb 0 (new_delta stats m).n_drops
            && is_above (new_delta stats m).n_drops (new_delta stats m).n_evts m.m_threshold)
          && ((claim 1 ts m.m_bucket).1 && is_exit m.m_actions))

  check_drops-stops :
      (ts : ℕ) (delta : ScapStats) (bpf_enabled : Bool) (m : SyscallEvtDropMgr Bucket Double)
      → (check_drops claim is_above ts delta bpf_enabled m).goes_on
        ≡ not (
            (ltb 0 delta.n_drops && is_above delta.n_drops delta.n_evts m.m_threshold)
            && ((claim 1 ts m.m_bucket).1 && is_exit m.m_actions))
  unfolding check_drops claim_actions
  check_drops-stops ts delta bpf m =
      elim (Bool-cases (ltb 0 delta.n_drops && is_above delta.n_drops delta.n_evts m.m_threshold)) [
        | inr e ↦ rw (e, check_drops) refl
        | inl e ↦ elim (Bool-cases (claim 1 ts m.m_bucket).1) [
          | inr c ↦ rw (e, c, check_drops, claim_actions) refl
          | inl c ↦
              rw (e, c, check_drops, claim_actions)
                (perform_actions-goes_on ts delta bpf m.m_actions)
        ]
      ]

  -- The processing of events stops exactly then.
  pub process_event-stops :
      (ts : ℕ) (stats : ScapStats) (bpf_enabled : Bool) (m : SyscallEvtDropMgr Bucket Double)
      → (process_event claim is_above ts stats bpf_enabled m).goes_on ≡ not (stops ts stats m)
  unfolding process_event check_stats check_drops claim_actions
  process_event-stops ts stats bpf m = elim (Bool-cases (ltb (next_check ts m) ts)) [
    | inr e ↦ rw (e, process_event) refl
    | inl e ↦
        rw (e, process_event, check_stats)
          (check_drops-stops ts (new_delta stats m) bpf
            (record m { m_next_check_ts = (ts + one_second_in_ns) % 2 ^ 64; m_last_stats = stats }))
  ]
