-- ===== src/SignalHandler/Exclusive.antt =====
-- userspace/falco/atomic_signal_handler.h: one thread at a time holds the mutex.
use falco.Prelude.{
  ℕ, ◌+◌, ◌≡◌, refl, sym, ◌∙◌, ◌≢◌, inl, inr, Bool, true, false, none, some, List, [], ◌∷◌,
  Bool-cases, Option-cases, ==_cases, nat_eq, string_eq, list_eq,
}
use mathlib.Core.Option.{none-ne-some, some_inj}
use falco.SignalHandler.{
  Place, outside, resetting, triggering, saw_triggered, waiting, locked, acting, acting_reset,
  acted, marking, leaving, Action, starts_reset, starts_trigger, starts_handle, goes_on,
  resets_within, throws_other, Handler, move, lock, advance, step, run,
}

-- From the lock to the unlock.
abbrev pub holds : Place → Bool
holds outside = false
holds resetting = false
holds triggering = false
holds saw_triggered = false
holds waiting = false
holds locked = true
holds acting = true
holds acting_reset = true
holds acted = true
holds marking = true
holds leaving = true

abbrev pub IsExclusive : Handler → Type 0
IsExclusive s = (u : ℕ) → holds (s.places u) ≡ true → s.m_mtx ≡ some u

-- A thread's move keeps the mutex its own, if the others keep theirs.
move-IsExclusive :
    (t : ℕ) (p : Place) (s : Handler)
    → (holds p ≡ true → s.m_mtx ≡ some t)
    → ((u : ℕ) → u ≢ t → holds (s.places u) ≡ true → s.m_mtx ≡ some u)
    → IsExclusive (move t p s)
move-IsExclusive t p s h k u = elim (==_cases u t) [
  | inl (e, q) ↦ rw e (λ g. rw q (h g))
  | inr (e, q) ↦ rw e (k u q)
]

pub advance-IsExclusive :
    (p : Place) (a : Action) (t : ℕ) (s : Handler)
    → s.places t ≡ p
    → IsExclusive s
    → IsExclusive (advance p a t s)
unfolding advance lock
advance-IsExclusive outside starts_reset t s e h =
    move-IsExclusive t resetting (record s { m_handled = false }) (λ g. cc) (λ u n. h u)
advance-IsExclusive outside starts_trigger t s e h =
    move-IsExclusive t triggering (record s { m_triggered = true }) (λ g. cc) (λ u n. h u)
advance-IsExclusive outside starts_handle t s e h = elim (Bool-cases s.m_triggered) [
  | inl q ↦ rw q (move-IsExclusive t saw_triggered s (λ g. cc) (λ u n. h u))
  | inr q ↦ rw q (move-IsExclusive t outside s (λ g. cc) (λ u n. h u))
]
advance-IsExclusive outside goes_on t s e h = h
advance-IsExclusive outside resets_within t s e h = h
advance-IsExclusive outside throws_other t s e h = h
advance-IsExclusive resetting a t s e h =
    move-IsExclusive t outside (record s { m_triggered = false }) (λ g. cc) (λ u n. h u)
advance-IsExclusive triggering a t s e h =
    move-IsExclusive t outside (record s { m_handled = false }) (λ g. cc) (λ u n. h u)
advance-IsExclusive saw_triggered a t s e h = elim (Bool-cases s.m_handled) [
  | inl q ↦ rw q (move-IsExclusive t outside s (λ g. cc) (λ u n. h u))
  | inr q ↦ rw q (move-IsExclusive t waiting s (λ g. cc) (λ u n. h u))
]
advance-IsExclusive waiting a t s e h = elim (Option-cases s.m_mtx) [
  | inl q ↦
      rw (q, lock)
        (move-IsExclusive t locked (record s { m_mtx = some t }) (λ g. refl)
          (λ u n g. absurd (none-ne-some u (sym q ∙ h u g))))
  | inr (u, q) ↦ rw (q, lock) (λ v g. sym q ∙ h v g)
]
advance-IsExclusive locked a t s e h =
    let mine = h t (rw e refl) in
    elim (Bool-cases s.m_handled) [
      | inl q ↦ rw q (move-IsExclusive t leaving s (λ g. mine) (λ u n. h u))
      | inr q ↦ rw q (
          move-IsExclusive t acting (record s { performed = s.performed + 1 }) (λ g. mine)
            (λ u n. h u))
    ]
advance-IsExclusive acting starts_reset t s e h = h
advance-IsExclusive acting starts_trigger t s e h = h
advance-IsExclusive acting starts_handle t s e h = h
advance-IsExclusive acting goes_on t s e h =
    move-IsExclusive t acted s (λ g. h t (rw e refl)) (λ u n. h u)
advance-IsExclusive acting resets_within t s e h =
    move-IsExclusive t acting_reset (record s { m_handled = false }) (λ g. h t (rw e refl))
      (λ u n. h u)
advance-IsExclusive acting throws_other t s e h =
    move-IsExclusive t leaving (record s { thrown = s.thrown + 1 }) (λ g. h t (rw e refl))
      (λ u n. h u)
advance-IsExclusive acting_reset a t s e h =
    move-IsExclusive t acting (record s { m_triggered = false }) (λ g. h t (rw e refl)) (λ u n. h u)
advance-IsExclusive acted a t s e h = elim (Bool-cases s.m_triggered) [
  | inl q ↦ rw q (move-IsExclusive t marking s (λ g. h t (rw e refl)) (λ u n. h u))
  | inr q ↦ rw q (move-IsExclusive t leaving s (λ g. h t (rw e refl)) (λ u n. h u))
]
advance-IsExclusive marking a t s e h =
    move-IsExclusive t leaving (record s { m_handled = true }) (λ g. h t (rw e refl)) (λ u n. h u)
advance-IsExclusive leaving a t s e h =
    move-IsExclusive t outside (record s { m_mtx = none }) (λ g. cc)
      (λ u n g. absurd (n (some_inj.0 (sym (h u g) ∙ h t (rw e refl)))))

pub step-IsExclusive : (x : ℕ × Action) (s : Handler) → IsExclusive s → IsExclusive (step x s)
unfolding step
step-IsExclusive (t, a) s h = advance-IsExclusive (s.places t) a t s refl h

pub run-IsExclusive :
    (xs : List (ℕ × Action)) (s : Handler) → IsExclusive s → IsExclusive (run xs s)
unfolding run
run-IsExclusive [] s h = h
run-IsExclusive (x ∷ xs) s h = run-IsExclusive xs (step x s) (step-IsExclusive x s h)
