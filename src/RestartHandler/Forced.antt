-- ===== src/RestartHandler/Forced.antt =====
-- userspace/falco/app/restart_handler.cpp: the flag of a forced restart. Any thread may call `trigger`
-- between two steps of the watcher, which loads the flag, clears it, and then decides its turn.
pub mod Served
use falco.Prelude.{ℕ, ◌+◌, Bool, true, false, List, [], ◌∷◌, if◌then◌else◌}
use falco.RestartHandler.{
  Selected, select_error, timed_out, ready, Iteration, Watcher, Turn, continues, triggered, stopped,
  failed, watch_turn,
}

-- Where the watcher stands, with the turn that it is in, and with its local `forced`.
pub data WatcherPlace : Type 0 where
  selecting : WatcherPlace
  loading : Iteration → WatcherPlace
  storing : Iteration → (forced : Bool) → WatcherPlace
  deciding : Iteration → (forced : Bool) → WatcherPlace
  ended : Turn → WatcherPlace

-- `served` counts the turns that were decided with a forced request.
pub record Watching : Type 0 where
  pub m_forced : Bool
  pub place : WatcherPlace
  pub watcher : Watcher
  pub served : ℕ

-- A call of `trigger`, or a step of the watcher; a turn that it starts meets the given answers.
pub data WatchStep : Type 0 where
  triggers : WatchStep
  moves : Iteration → WatchStep

-- What `select` answers.
unfoldable pub select_turn : Selected → Iteration → WatcherPlace
select_turn select_error i = ended failed
select_turn timed_out i = loading i
select_turn ready i = loading i

-- The test of `m_stop`, and `select`.
unfoldable pub start_turn : Iteration → WatcherPlace
start_turn i = if i.m_stop then ended stopped else select_turn i.rv i

-- The next turn, or the end of the loop.
unfoldable pub finish_turn : Turn → Watching → Watching
finish_turn (continues w) s = record s { place = selecting; watcher = w }
finish_turn triggered s = record s { place = ended triggered }
finish_turn stopped s = record s { place = ended stopped }
finish_turn failed s = record s { place = ended failed }

abbrev pub count_served : Bool → ℕ → ℕ
count_served true n = n + 1
count_served false n = n

-- The watcher's next step; `m_forced.load` comes before `m_forced.store(false)`.
unfoldable pub advance_watcher : WatcherPlace → Iteration → Watching → Watching
advance_watcher selecting i s = record s { place = start_turn i }
advance_watcher (loading j) i s = record s { place = storing j s.m_forced }
advance_watcher (storing j forced) i s = record s { m_forced = false; place = deciding j forced }
advance_watcher (deciding j forced) i s =
    finish_turn (watch_turn (record j { forced = forced }) s.watcher)
      (record s { served = count_served forced s.served })
advance_watcher (ended t) i s = s

unfoldable pub watch_step : WatchStep → Watching → Watching
watch_step triggers s = record s { m_forced = true }
watch_step (moves i) s = advance_watcher s.place i s

-- Any interleaving of the requests with the watcher's steps.
unfoldable pub watch_steps : List WatchStep → Watching → Watching
watch_steps [] s = s
watch_steps (x ∷ xs) s = watch_steps xs (watch_step x s)
