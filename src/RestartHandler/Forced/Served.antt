-- ===== src/RestartHandler/Forced/Served.antt =====
-- userspace/falco/app/restart_handler.cpp: which requests of a forced restart the watcher serves.
use falco.Prelude.{
  ℕ, ◌+◌, ◌≤◌, ◌<◌, ◌≡◌, ◌⊎◌, Bool, true, List, [], ◌∷◌, nat_eq, string_eq, list_eq,
}
use falco.RestartHandler.{Iteration, Turn}
use falco.RestartHandler.Forced.{
  WatcherPlace, selecting, loading, storing, deciding, ended, Watching, WatchStep, triggers, moves,
}

-- The steps of the watcher.
abbrev pub count_moves : List WatchStep → ℕ
count_moves [] = 0
count_moves (triggers ∷ xs) = count_moves xs
count_moves (moves i ∷ xs) = count_moves xs + 1

abbrev pub HasEnded : WatcherPlace → Type 0
HasEnded p = (t : Turn) × (p ≡ ended t)

-- The loop has ended, or a turn was decided with a request.
abbrev pub IsServed : ℕ → Watching → Type 0
IsServed n s = HasEnded s.place ⊎ (n < s.served)

-- A request that is served in at most so many steps of the watcher.
abbrev Due : ℕ → WatcherPlace → Bool → Type 0
Due k selecting b = (b ≡ true) × (4 ≤ k)
Due k (loading j) b = (b ≡ true) × (3 ≤ k)
Due k (storing j f) b = (f ≡ true) × (2 ≤ k)
Due k (deciding j f) b = (f ≡ true) × (1 ≤ k) ⊎ (b ≡ true) × (5 ≤ k)
Due k (ended t) b = Unit

abbrev StartCases : Iteration → WatcherPlace → Type 0
StartCases i p = HasEnded p ⊎ (p ≡ loading i)

-- How a decided turn goes on.
record Goes (s t : Watching) : Type 0 where
  served : t.served ≡ s.served
  forced : t.m_forced ≡ s.m_forced
  place : HasEnded t.place ⊎ (t.place ≡ selecting)

-- Each step of the watcher brings a request nearer.
abbrev Nearer : ℕ → ℕ → Watching → Type 0
Nearer n k s = IsServed n s ⊎ (n ≤ s.served) × Due k s.place s.m_forced

-- Between the load and the store that clears the flag.
abbrev pub IsStoring : Watching → Type 0
IsStoring s = (j : Iteration) × (f : Bool) × (s.place ≡ storing j f)
