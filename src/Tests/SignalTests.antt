-- ===== src/Tests/SignalTests.antt =====
-- The threads of userspace/falco/atomic_signal_handler.h on concrete interleavings.
use falco.Prelude.{
  ℕ, ◌+◌, ◌≤◌, ◌≡◌, refl, true, false, none, List, [], ◌∷◌, ◌++◌, ℕ_discrete, nat_eq, string_eq,
  list_eq,
}
use falco.SignalHandler.{
  Action, starts_reset, starts_trigger, starts_handle, goes_on, throws_other, Handler, new_handler,
  lock, advance, step, run,
}
use falco.SignalHandler.AtMostOnce.{run-at_most_once}

abbrev signalled : Handler
signalled = record new_handler { m_triggered = true }

-- Two threads handle the signal at the same time; the second one waits for the mutex.
abbrev both : List (ℕ × Action)
both =
    (1, starts_handle)
    ∷ (2, starts_handle)
    ∷ (1, goes_on)
    ∷ (2, goes_on)
    ∷ (1, goes_on)
    ∷ (2, goes_on)
    ∷ (1, goes_on)
    ∷ (1, goes_on)
    ∷ (1, goes_on)
    ∷ (1, goes_on)
    ∷ (1, goes_on)
    ∷ (2, goes_on)
    ∷ (2, goes_on)
    ∷ (2, goes_on)
    ∷ []

performs_once : (run both signalled).performed ≡ 1
unfolding run step advance lock ℕ_discrete
performs_once = refl

is_marked : (run both signalled).m_handled ≡ true
unfolding run step advance lock ℕ_discrete
is_marked = refl

is_released : (run both signalled).m_mtx ≡ none
unfolding run step advance lock ℕ_discrete
is_released = refl

-- The first thread has passed its tests when the second resets the signal, and performs anyway.
abbrev overtaken : List (ℕ × Action)
overtaken =
    (1, starts_handle)
    ∷ (1, goes_on)
    ∷ (2, starts_reset)
    ∷ (2, goes_on)
    ∷ (1, goes_on)
    ∷ (1, goes_on)
    ∷ []

acts_untriggered : (run overtaken signalled).m_triggered ≡ false
unfolding run step advance lock ℕ_discrete
acts_untriggered = refl

acts_once : (run overtaken signalled).performed ≡ 1
unfolding run step advance lock ℕ_discrete
acts_once = refl

-- A trigger makes a handled signal be handled again, without a reset.
acts_again : (run (both ++ (3, starts_trigger) ∷ (3, goes_on) ∷ both) signalled).performed ≡ 2
unfolding run step advance lock ℕ_discrete
acts_again = refl

-- The first action throws something that is no `std::exception`: nothing is marked, and the thread that
-- waited performs the action once more.
abbrev thrown_out : List (ℕ × Action)
thrown_out =
    (1, starts_handle)
    ∷ (2, starts_handle)
    ∷ (1, goes_on)
    ∷ (2, goes_on)
    ∷ (1, goes_on)
    ∷ (1, goes_on)
    ∷ (1, throws_other)
    ∷ (1, goes_on)
    ∷ (2, goes_on)
    ∷ (2, goes_on)
    ∷ []

performs_twice : (run thrown_out signalled).performed ≡ 2
unfolding run step advance lock ℕ_discrete
performs_twice = refl

run-at_most_once_example :
    (run thrown_out signalled).performed + signalled.thrown
    ≤ signalled.performed + (run thrown_out signalled).thrown + 1
run-at_most_once_example =
    run-at_most_once thrown_out signalled
      (refl, (refl, (refl, (refl, (refl, (refl, (refl, (refl, (refl, (refl, tt)))))))))) refl
      (λ u. refl)
