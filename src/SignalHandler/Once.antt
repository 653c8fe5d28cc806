-- ===== src/SignalHandler/Once.antt =====
-- userspace/falco/atomic_signal_handler.h: the action is performed at most once for a trigger.
use falco.Prelude.{
  ℕ, ◌+◌, ◌≡◌, refl, sym, ap, ◌∙◌, ◌⊎◌, inl, inr, Bool, true, false, Option, arith, Bool-cases,
  ==_self, ==_cases, nat_eq, string_eq, list_eq,
}
use mathlib.Core.Bool.{true≢false}
use mathlib.Core.Option.{some_inj}
use falco.SignalHandler.{
  Place, outside, resetting, triggering, saw_triggered, waiting, locked, acting, acting_reset,
  acted, marking, leaving, Action, starts_reset, starts_trigger, starts_handle, goes_on,
  resets_within, throws_other, Handler, move,
}
use falco.SignalHandler.Exclusive.{holds, IsExclusive}

-- Neither a reset nor a trigger is started.
abbrev pub is_handling : Action → Bool
is_handling starts_reset = false
is_handling starts_trigger = false
is_handling starts_handle = true
is_handling goes_on = true
is_handling resets_within = false
is_handling throws_other = true

-- The second store of a reset or of a trigger is still to come.
abbrev pub is_storing : Place → Bool
is_storing outside = false
is_storing resetting = true
is_storing triggering = true
is_storing saw_triggered = false
is_storing waiting = false
is_storing locked = false
is_storing acting = false
is_storing acting_reset = true
is_storing acted = false
is_storing marking = false
is_storing leaving = false

-- The action was started, and the signal is not marked as handled yet.
abbrev pub is_performing : Place → Bool
is_performing outside = false
is_performing resetting = false
is_performing triggering = false
is_performing saw_triggered = false
is_performing waiting = false
is_performing locked = false
is_performing acting = true
is_performing acting_reset = true
is_performing acted = true
is_performing marking = true
is_performing leaving = false

performing-holds : (p : Place) → is_performing p ≡ true → holds p ≡ true
performing-holds outside h = cc
performing-holds resetting h = cc
performing-holds triggering h = cc
performing-holds saw_triggered h = cc
performing-holds waiting h = cc
performing-holds locked h = cc
performing-holds acting h = refl
performing-holds acting_reset h = refl
performing-holds acted h = refl
performing-holds marking h = refl
performing-holds leaving h = cc

-- Beside the actions that another exception ended, no action was started yet, or one was, and it goes
-- on or is marked.
abbrev pub Count : ℕ → ℕ → Handler → Type 0
Count n m s =
    (s.performed + m ≡ n + s.thrown) × ((u : ℕ) → is_performing (s.places u) ≡ false)
    ⊎ (s.performed + m ≡ n + s.thrown + 1)
      × ((s.m_handled ≡ true) × ((u : ℕ) → is_performing (s.places u) ≡ false)
          ⊎ ((u : ℕ) × (is_performing (s.places u) ≡ true)))

pub record IsOnce (n m : ℕ) (s : Handler) : Type 0 where
  pub exclusive : IsExclusive s
  pub is_triggered : s.m_triggered ≡ true
  pub settled : (u : ℕ) → is_storing (s.places u) ≡ false
  pub count : Count n m s

-- A property of the places after a move.
move-each :
    (f : Place → Bool) (b : Bool) (t : ℕ) (p : Place) (s : Handler)
    → f p ≡ b
    → ((u : ℕ) → f (s.places u) ≡ b)
    → (u : ℕ) → f ((move t p s).places u) ≡ b
move-each f b t p s h k u = elim (==_cases u t) [ inl (e, q) ↦ rw e h | inr (e, q) ↦ rw e (k u) ]

move-same :
    (f : Place → Bool) (t : ℕ) (p : Place) (s : Handler)
    → f p ≡ f (s.places t)
    → (u : ℕ) → f ((move t p s).places u) ≡ f (s.places u)
move-same f t p s h u = elim (==_cases u t) [ inl (e, q) ↦ rw (e, q) h | inr (e, q) ↦ rw e refl ]

-- A move that neither starts an action nor marks it.
pub move-IsOnce :
    (n m t : ℕ) (p : Place) (mtx : Option ℕ) (s : Handler)
    → IsOnce n m s
    → is_storing p ≡ false
    → is_performing p ≡ is_performing (s.places t)
    → IsExclusive (move t p (record s { m_mtx = mtx }))
    → IsOnce n m (move t p (record s { m_mtx = mtx }))
move-IsOnce n m t p mtx s h st pf ex =
    let same = move-same is_performing t p s pf in
    record {
      exclusive = ex;
      is_triggered = h.is_triggered;
      settled = move-each is_storing false t p s st h.settled;
      count = elim h.count [
        | inl (e, k) ↦ inl (e, λ u. same u ∙ k u)
        | inr (e, inl (d, k)) ↦ inr (e, inl (d, λ u. same u ∙ k u))
        | inr (e, inr (u, k)) ↦ inr (e, inr (u, same u ∙ k))
      ];
    }

-- The thread that has the mutex and is not performing is the first to perform.
not_performing :
    (n m t : ℕ) (s : Handler)
    → IsOnce n m s
    → holds (s.places t) ≡ true
    → is_performing (s.places t) ≡ false
    → (u : ℕ) → is_performing (s.places u) ≡ false
not_performing n m t s h g k u = elim (Bool-cases (is_performing (s.places u))) [
  | inr q ↦ q
  | inl q ↦
      let same : u ≡ t =
        some_inj.0 (sym (h.exclusive u (performing-holds (s.places u) q)) ∙ h.exclusive t g) in
      rw same k
]

-- Where the thread that has the mutex goes on to another place, no thread is left that performs.
idle_after :
    (t : ℕ) (p : Place) (s : Handler)
    → IsExclusive s
    → holds (s.places t) ≡ true
    → is_performing p ≡ false
    → (u : ℕ) → is_performing ((move t p s).places u) ≡ false
idle_after t p s ex g k u = elim (==_cases u t) [
  | inl (e, q) ↦ rw e k
  | inr (e, q) ↦ elim (Bool-cases (is_performing (s.places u))) [
    | inr r ↦ rw e r
    | inl r ↦ absurd (q (some_inj.0 (sym (ex u (performing-holds (s.places u) r)) ∙ ex t g)))
  ]
]

pub start-IsOnce :
    (n m t : ℕ) (s : Handler)
    → IsOnce n m s
    → s.places t ≡ locked
    → s.m_handled ≡ false
    → IsExclusive (move t acting (record s { performed = s.performed + 1 }))
    → IsOnce n m (move t acting (record s { performed = s.performed + 1 }))
start-IsOnce n m t s h e q ex =
    let others = not_performing n m t s h (rw e refl) (rw e refl) in
    record {
      exclusive = ex;
      is_triggered = h.is_triggered;
      settled = move-each is_storing false t acting s refl h.settled;
      count = elim h.count [
        | inl (c, k) ↦ inr (omega (arith, c), inr (t, rw (==_self t) refl))
        | inr (c, inl (d, k)) ↦ absurd (true≢false (sym d ∙ q))
        | inr (c, inr (u, k)) ↦ absurd (true≢false (sym k ∙ others u))
      ];
    }

pub mark-IsOnce :
    (n m t : ℕ) (s : Handler)
    → IsOnce n m s
    → s.places t ≡ marking
    → IsExclusive (move t leaving (record s { m_handled = true }))
    → IsOnce n m (move t leaving (record s { m_handled = true }))
mark-IsOnce n m t s h e ex = record {
  exclusive = ex;
  is_triggered = h.is_triggered;
  settled = move-each is_storing false t leaving s refl h.settled;
  count = elim h.count [
    | inl (c, k) ↦ absurd (true≢false (sym (ap is_performing e) ∙ k t))
    | inr (c, k) ↦ inr (c, inl (refl, idle_after t leaving s h.exclusive (ap holds e) refl))
  ];
}

-- An action that another exception ends is not counted any more.
pub throw-IsOnce :
    (n m t : ℕ) (s : Handler)
    → IsOnce n m s
    → s.places t ≡ acting
    → IsExclusive (move t leaving (record s { thrown = s.thrown + 1 }))
    → IsOnce n m (move t leaving (record s { thrown = s.thrown + 1 }))
throw-IsOnce n m t s h e ex = record {
  exclusive = ex;
  is_triggered = h.is_triggered;
  settled = move-each is_storing false t leaving s refl h.settled;
  count = elim h.count [
    | inl (c, k) ↦ absurd (true≢false (sym (ap is_performing e) ∙ k t))
    | inr (c, inl (d, k)) ↦ absurd (true≢false (sym (ap is_performing e) ∙ k t))
    | inr (c, inr k) ↦ inl (omega (arith, c), idle_after t leaving s h.exclusive (ap holds e) refl)
  ];
}
