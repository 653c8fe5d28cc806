-- ===== src/RestartHandler.antt =====
-- userspace/falco/app/restart_handler.cpp: the thread that watches the configuration and the rules
-- files, and asks for a restart. What the kernel and the dry run answer is read from an
-- `Iteration`.
pub mod Restarts
pub mod Forced
use falco.Prelude.{
  ℕ, zero, suc, ◌+◌, ◌-◌, ◌*◌, ◌/◌, ◌%◌, ◌^◌, ◌≤◌, ◌<◌, String, ◌<>◌, ◌≡◌, refl, sym, ap, ◌∙◌,
  subst, ◌≢◌, ◌↔◌, ◌⊎◌, inl, inr, ite, Bool, true, false, not, ◌&&◌, ◌||◌, Option, none, some, List,
  [], ◌∷◌, ◌++◌, map, arith, dec_lt, dec_le, ℕ_discrete, ltb, leb, if◌then◌else◌, ltb→lt, lt→ltb,
  leb→le, le→leb, tests, Bool-cases, Option-cases, Eq, ◌==◌, ==_self, ==_ne, ==_cases, nat_eq,
  string_eq, list_eq, contains, contains-append, nil-ne-cons, cons-ne-nil, length, get_elem?, set,
  replicate, take, drop, length-append, length-set, get_elem?-set_self, get_elem?-set_ne,
  get_elem?-append_lt, get_elem?-append_end, get_elem?-eq_some, get_elem?-lt, length-map,
  insert_sorted, erase, contains-insert_sorted, IsNodup, contains-erase, erase-IsNodup,
  append-IsNodup, IsIncreasing, insert_sorted-IsIncreasing, erase-IsIncreasing,
  IsIncreasing-IsNodup, ◌>>=◌, >>=-eq-some, take-append-drop, All, All-append, All-append_right,
  All-append_left, Member,
}

pub data Selected : Type 0 where
  select_error : Selected
  timed_out : Selected
  ready : Selected

pub data ReadResult : Type 0 where
  read_error : ReadResult
  no_data : ReadResult
  some_data : ReadResult

-- What one turn of the loop meets: whether it is to stop, what `select` and `read` answer, whether a
-- restart is forced, and what `m_on_check` would answer.
pub record Iteration : Type 0 where
  pub m_stop : Bool
  pub rv : Selected
  pub forced : Bool
  pub on_check : Bool
  pub n : ReadResult

-- The two locals that live across turns.
pub record Watcher : Type 0 where
  pub should_check : Bool
  pub should_restart : Bool

-- `triggered` is `g_restart_signal.trigger()` and the return.
pub data Turn : Type 0 where
  continues : Watcher → Turn
  triggered : Turn
  stopped : Turn
  failed : Turn

-- No new watch event was received, and no restart is forced.
unfoldable pub on_quiet : Bool → Watcher → Turn
on_quiet on_check w =
    if w.should_check
    then continues (record { should_check = false; should_restart = on_check })
    else if w.should_restart
    then triggered
    else continues w

abbrev pub dismissed : Watcher
dismissed = record { should_check = false; should_restart = false }

abbrev pub due : Watcher
due = record { should_check = true; should_restart = false }

-- The data of the watch events is consumed.
unfoldable pub on_read : ReadResult → Bool → Turn
on_read read_error forced = failed
on_read no_data forced = continues (if forced then due else dismissed)
on_read some_data forced = continues due

unfoldable pub watch_turn : Iteration → Watcher → Turn
watch_turn i w = if i.m_stop then stopped else elim i.rv [
  | select_error ↦ failed
  | timed_out ↦ if i.forced then continues due else on_quiet i.on_check w
  | ready ↦ on_read i.n i.forced
]

-- The loop, over what its turns meet; it is still running where they end.
unfoldable pub watch_turns : List Iteration → Watcher → Turn
watch_turns [] w = continues w
watch_turns (i ∷ is) w = elim (watch_turn i w) [
  | continues w' ↦ watch_turns is w'
  | triggered ↦ triggered
  | stopped ↦ stopped
  | failed ↦ failed
]

-- `owned` is whether `fcntl` gave the watch events to the thread.
unfoldable pub watcher_loop : Bool → List Iteration → Turn
watcher_loop owned is = if owned then watch_turns is dismissed else failed
