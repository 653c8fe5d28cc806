-- ===== src/SignalHandler/AtMostOnce.antt =====
-- userspace/falco/atomic_signal_handler.h: the action is performed at most once for a trigger.
use falco.Prelude.{
  ℕ, ◌+◌, ◌≤◌, ◌≡◌, refl, sym, ap, ◌∙◌, inl, inr, Bool, true, false, Option, none, some, List, [],
  ◌∷◌, arith, if◌then◌else◌, nat_eq, string_eq, list_eq, All,
}
use mathlib.Core.Bool.{true≢false}
use falco.SignalHandler.{
  Place, outside, resetting, triggering, saw_triggered, waiting, locked, acting, acting_reset,
  acted, marking, leaving, Action, starts_reset, starts_trigger, starts_handle, goes_on,
  resets_within, throws_other, Handler, move, lock, advance, step, run,
}
use falco.SignalHandler.Exclusive.{holds, IsExclusive, advance-IsExclusive}
use falco.SignalHandler.Once.{
  is_handling, is_storing, is_performing, IsOnce, move-IsOnce, start-IsOnce, mark-IsOnce,
  throw-IsOnce,
}

if-each {ℓ} :
    {A : Type ℓ} (P : A → Type 0) (b : Bool) (x y : A)
    → (b ≡ true → P x)
    → (b ≡ false → P y)
    → P (if b then x else y)
if-each P true x y h k = h refl
if-each P false x y h k = k refl

lock-IsOnce :
    (n m t : ℕ) (o : Option ℕ) (s : Handler)
    → s.places t ≡ waiting
    → IsOnce n m s
    → IsExclusive (lock t o s)
    → IsOnce n m (lock t o s)
unfolding lock
lock-IsOnce n m t none s e h ex = move-IsOnce n m t locked (some t) s h refl (rw e refl) ex
lock-IsOnce n m t (some u) s e h ex = h

place-IsOnce :
    (n m : ℕ) (p : Place) (a : Action) (t : ℕ) (s : Handler)
    → is_handling a ≡ true
    → s.places t ≡ p
    → IsOnce n m s
    → IsExclusive (advance p a t s)
    → IsOnce n m (advance p a t s)
unfolding advance
place-IsOnce n m outside starts_reset t s q e h ex = cc
place-IsOnce n m outside starts_trigger t s q e h ex = cc
place-IsOnce n m outside starts_handle t s q e h ex =
    move-IsOnce n m t _ s.m_mtx s h
      (if-each (λ p. is_storing p ≡ false) s.m_triggered saw_triggered outside (λ c. refl)
        (λ c. refl))
      (if-each (λ p. is_performing p ≡ is_performing (s.places t)) s.m_triggered saw_triggered
        outside (λ c. rw e refl) (λ c. rw e refl))
      ex
place-IsOnce n m outside goes_on t s q e h ex = h
place-IsOnce n m outside resets_within t s q e h ex = cc
place-IsOnce n m outside throws_other t s q e h ex = h
place-IsOnce n m resetting a t s q e h ex =
    absurd (true≢false (sym (ap is_storing e) ∙ h.settled t))
place-IsOnce n m triggering a t s q e h ex =
    absurd (true≢false (sym (ap is_storing e) ∙ h.settled t))
place-IsOnce n m saw_triggered a t s q e h ex =
    move-IsOnce n m t _ s.m_mtx s h
      (if-each (λ p. is_storing p ≡ false) s.m_handled outside waiting (λ c. refl) (λ c. refl))
      (if-each (λ p. is_performing p ≡ is_performing (s.places t)) s.m_handled outside waiting
        (λ c. rw e refl) (λ c. rw e refl))
      ex
place-IsOnce n m waiting a t s q e h ex = lock-IsOnce n m t s.m_mtx s e h ex
place-IsOnce n m locked a t s q e h ex =
    if-each (λ r. IsExclusive r → IsOnce n m r) s.m_handled (move t leaving s)
      (move t acting (record s { performed = s.performed + 1 }))
      (λ c. move-IsOnce n m t leaving s.m_mtx s h refl (rw e refl))
      (λ c. start-IsOnce n m t s h e c) ex
place-IsOnce n m acting starts_reset t s q e h ex = h
place-IsOnce n m acting starts_trigger t s q e h ex = h
place-IsOnce n m acting starts_handle t s q e h ex = h
place-IsOnce n m acting goes_on t s q e h ex =
    move-IsOnce n m t acted s.m_mtx s h refl (rw e refl) ex
place-IsOnce n m acting resets_within t s q e h ex = cc
place-IsOnce n m acting throws_other t s q e h ex = throw-IsOnce n m t s h e ex
place-IsOnce n m acting_reset a t s q e h ex =
    absurd (true≢false (sym (ap is_storing e) ∙ h.settled t))
place-IsOnce n m acted a t s q e h ex =
    move-IsOnce n m t _ s.m_mtx s h
      (if-each (λ p. is_storing p ≡ false) s.m_triggered marking leaving (λ c. refl) (λ c. refl))
      (if-each (λ p. is_performing p ≡ is_performing (s.places t)) s.m_triggered marking leaving
        (λ c. rw e refl) (λ c. absurd (true≢false (sym h.is_triggered ∙ c))))
      ex
place-IsOnce n m marking a t s q e h ex = mark-IsOnce n m t s h e ex
place-IsOnce n m leaving a t s q e h ex = move-IsOnce n m t outside none s h refl (rw e refl) ex

run-IsOnce :
    (n m : ℕ) (xs : List (ℕ × Action)) (s : Handler)
    → All (λ (x : ℕ × Action). is_handling x.1 ≡ true) xs
    → IsOnce n m s
    → IsOnce n m (run xs s)
unfolding run step
run-IsOnce n m [] s q h = h
run-IsOnce n m ((t, a) ∷ xs) s q h = run-IsOnce n m xs (advance (s.places t) a t s) q.1 (
    place-IsOnce n m (s.places t) a t s q.0 refl h
      (advance-IsExclusive (s.places t) a t s refl h.exclusive))

-- From a triggered signal at which no thread is at work, any interleaving of calls of handle, none
-- of whose actions resets it, starts the action at most once more than actions were left by an
-- exception that is no `std::exception`.
pub run-at_most_once :
    (xs : List (ℕ × Action)) (s : Handler)
    → All (λ (x : ℕ × Action). is_handling x.1 ≡ true) xs
    → s.m_triggered ≡ true
    → ((u : ℕ) → s.places u ≡ outside)
    → (run xs s).performed + s.thrown ≤ s.performed + (run xs s).thrown + 1
run-at_most_once xs s q h k =
    let first : IsOnce s.performed s.thrown s = record {
      exclusive = λ u g. absurd (true≢false (sym g ∙ ap holds (k u)));
      is_triggered = h;
      settled = λ u. ap is_storing (k u);
      count = inl (refl, λ u. ap is_performing (k u));
    } in
    elim (run-IsOnce s.performed s.thrown xs s q first).count [
      | inl (e, _) ↦ omega (arith, e)
      | inr (e, _) ↦ omega (arith, e)
    ]
