-- ===== src/SignalHandler.antt =====
-- userspace/falco/atomic_signal_handler.h: a signal that many threads trigger, reset and handle. A
-- step is one atomic access, one use of the mutex, or the start or the end of the action.
pub mod Exclusive
pub mod Once
pub mod AtMostOnce
use falco.Prelude.{
  ℕ, zero, suc, ◌+◌, ◌-◌, ◌*◌, ◌/◌, ◌%◌, ◌^◌, ◌≤◌, ◌<◌, String, ◌<>◌, ◌≡◌, refl, sym, ap, ◌∙◌,
  subst, ◌≢◌, ◌↔◌, ◌⊎◌, inl, inr, ite, Bool, true, false, not, ◌&&◌, ◌||◌, Option, none, some, List,
  [], ◌∷◌, ◌++◌, map, arith, dec_lt, dec_le, ℕ_discrete, ltb, leb, if◌then◌else◌, ltb→lt, lt→ltb,
  leb→le, le→leb, tests, Bool-cases, Option-cases, Eq, ◌==◌, ==_self, ==_ne, ==_cases, nat_eq,
  string_eq, list_eq, contains, contains-append, nil-ne-cons, cons-ne-nil, length, get_elem?, set,
  replicate, take, drop, length-append, length-set, get_elem?-set_self, get_elem?-set_ne,
  get_elem?-append_lt, get_elem?-append_end, get_elem?-eq_some, get_elem?-lt, length-map,
  insert_sorted, erase, contains-insert_sorted, IsNodup, contains-erase, erase-IsNodup,
  append-IsNodup, IsIncreasing, insert_sorted-IsIncreasing, erase-IsIncreasing,
  IsIncreasing-IsNodup, ◌>>=◌, >>=-eq-some, take-append-drop, All, All-append, All-append_right,
  All-append_left, Member,
}

-- Where a thread stands in a call.
pub data Place : Type 0 where
  outside : Place
  -- in `reset`, between its two stores
  resetting : Place
  -- in `trigger`, between its two stores
  triggering : Place
  -- in `handle`: the signal was triggered
  saw_triggered : Place
  -- the signal was not handled, and the mutex is asked for
  waiting : Place
  -- the mutex is held
  locked : Place
  -- the action runs, and may reset the handler
  acting : Place
  acting_reset : Place
  -- the action has returned or thrown a `std::exception`
  acted : Place
  -- the signal was still triggered
  marking : Place
  -- the mutex is still held, and is released where the scope is left
  leaving : Place

pub data Action : Type 0 where
  starts_reset : Action
  starts_trigger : Action
  starts_handle : Action
  goes_on : Action
  resets_within : Action
  -- the action throws something that is no `std::exception`
  throws_other : Action

-- `performed` counts the actions that were started, `thrown` those that no handler of `handle` caught.
pub record Handler : Type 0 where
  pub m_triggered : Bool
  pub m_handled : Bool
  pub m_mtx : Option ℕ
  pub places : ℕ → Place
  pub performed : ℕ
  pub thrown : ℕ

abbrev pub new_handler : Handler
new_handler = record {
  m_triggered = false;
  m_handled = false;
  m_mtx = none;
  places = λ t. outside;
  performed = 0;
  thrown = 0;
}

abbrev pub move : ℕ → Place → Handler → Handler
move t p s = record s { places = λ u. if u == t then p else s.places u }

unfoldable pub lock : ℕ → Option ℕ → Handler → Handler
lock t none s = move t locked (record s { m_mtx = some t })
lock t (some u) s = s

-- The step of a thread from its place; a thread that cannot take it waits.
unfoldable pub advance : Place → Action → ℕ → Handler → Handler
advance outside starts_reset t s = move t resetting (record s { m_handled = false })
advance outside starts_trigger t s = move t triggering (record s { m_triggered = true })
advance outside starts_handle t s = move t (if s.m_triggered then saw_triggered else outside) s
advance outside goes_on t s = s
advance outside resets_within t s = s
advance outside throws_other t s = s
advance resetting a t s = move t outside (record s { m_triggered = false })
advance triggering a t s = move t outside (record s { m_handled = false })
advance saw_triggered a t s = move t (if s.m_handled then outside else waiting) s
advance waiting a t s = lock t s.m_mtx s
advance locked a t s =
    if s.m_handled
    then move t leaving s
    else move t acting (record s { performed = s.performed + 1 })
advance acting starts_reset t s = s
advance acting starts_trigger t s = s
advance acting starts_handle t s = s
advance acting goes_on t s = move t acted s
advance acting resets_within t s = move t acting_reset (record s { m_handled = false })
advance acting throws_other t s = move t leaving (record s { thrown = s.thrown + 1 })
advance acting_reset a t s = move t acting (record s { m_triggered = false })
advance acted a t s = move t (if s.m_triggered then marking else leaving) s
advance marking a t s = move t leaving (record s { m_handled = true })
advance leaving a t s = move t outside (record s { m_mtx = none })

unfoldable pub step : ℕ × Action → Handler → Handler
step (t, a) s = advance (s.places t) a t s

-- Any interleaving of the threads' steps.
unfoldable pub run : List (ℕ × Action) → Handler → Handler
run [] s = s
run (x ∷ xs) s = run xs (step x s)
