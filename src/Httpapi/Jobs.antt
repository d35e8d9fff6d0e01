-- ===== src/Httpapi/Jobs.antt =====
-- internal/httpapi/jobs.go: the tracker of the repositories that a worker is indexing. Each
-- method holds the mutex for its whole body, so it is one step on the map.
use dotfs_mcp_server.Base.{
  ℕ, Bool, true, false, none, some, Text, bytes_eq, Dict, lookup, insert, erase,
}

-- `JobTracker.active`: the time at which the worker of a repository started
abbrev pub Tracker : Type 0
Tracker = Dict Text ℕ

-- `TryStart` at the time `now`
unfoldable pub try_start : Tracker → Text → ℕ → (Bool × ℕ) × Tracker
try_start jobs repo now = elim (lookup repo jobs) [
  | some since ↦ ((false, since), jobs)
  | none ↦ ((true, now), insert repo now jobs)
]

-- `Finish`
unfoldable pub finish : Tracker → Text → Tracker
finish jobs repo = erase repo jobs

-- `Active`
unfoldable pub active : Tracker → Text → Bool
active jobs repo = elim (lookup repo jobs) [ none ↦ false | some _ ↦ true ]
