-- ===== src/Httpapi/Server/Workers.antt =====
-- internal/httpapi: the server with its background workers, as a step relation.
use mathlib.Core.Logic.{if_pos, if_neg}
use dotfs_mcp_server.Base.{
  ℕ, ◌≡◌, refl, true, false, ◌||◌, List, [], ◌∷◌, ◌++◌, Text, arith, if◌then◌else◌, insert,
  lookup-insert, lookup-erase, bytes_eq, contains, Distinct, ◌==◌, lookup-nil, sym, ap, ◌∙◌,
}
use dotfs_mcp_server.Utils.Files.{FileSystem}
use dotfs_mcp_server.Httpapi.Jobs.{Tracker, finish, active}
use dotfs_mcp_server.Httpapi.Server.{
  Config, Handled, Ending, completed, index_failed, panicked, handle_update, run_index_job,
}
use dotfs_mcp_server.Httpapi.Server.Laws.{
  UpdateOutcome, stopped, bad_name, missing, busy, launched, handle_update_outcome,
}

-- The tracker, and the repository of every worker that runs.
pub record State : Type 0 where
  pub jobs : Tracker
  pub workers : List Text

-- One worker of the repository is gone.
unfoldable pub leave : Text → List Text → List Text
leave r [] = []
leave r (w ∷ ws) = let rest = leave r ws in if r == w then ws else w ∷ rest

-- An update request is handled, or a worker ends.
pub data Step (fs : FileSystem) (cfg : Config) (s : State) : State → Type 0 where
  request :
      (header repo : Text) (now : ℕ) (h : Handled)
      → h ≡ handle_update fs cfg s.jobs header repo now
      → Step fs cfg s (record { jobs = h.jobs; workers = h.started ++ s.workers })
  ends :
      (repo : Text) (ending : Ending)
      → contains s.workers repo ≡ true
      → Step fs cfg s
          (record { jobs = run_index_job s.jobs repo ending; workers = leave repo s.workers })

-- A run of the server from its start.
pub data Reachable (fs : FileSystem) (cfg : Config) : State → Type 0 where
  start : Reachable fs cfg (record { jobs = []; workers = [] })
  then_step : (s t : State) → Reachable fs cfg s → Step fs cfg s t → Reachable fs cfg t

-- No repository has two workers, and those that have one are the marked ones.
pub record IsExclusive (s : State) : Type 0 where
  pub distinct : Distinct s.workers
  pub marked : (r : Text) → active s.jobs r ≡ contains s.workers r

contains-leave :
    (r q : Text) (ws : List Text)
    → Distinct ws
    → contains (leave r ws) q ≡ (if q == r then false else contains ws q)
unfolding leave
contains-leave r q [] d = ground arith
contains-leave r q (w ∷ ws) d = ground (arith, contains-leave r q ws d.1)

Distinct-leave : (r : Text) (ws : List Text) → Distinct ws → Distinct (leave r ws)
unfolding leave
Distinct-leave r [] d = tt
Distinct-leave r (w ∷ ws) d = elim (bytes_eq.dec r w) [
  | yes e ↦ rw (if_pos _ e) d.1
  | no other ↦
      rw (if_neg _ other) (ground (arith, contains-leave r w ws d.1, d.0), Distinct-leave r ws d.1)
]

active-insert :
    (r q : Text) (now : ℕ) (jobs : Tracker)
    → active (insert r now jobs) q ≡ (q == r || active jobs q)
unfolding active
active-insert r q now jobs = rw (lookup-insert q r now jobs, active) (ground arith)

pub active-finish :
    (r q : Text) (jobs : Tracker)
    → active (finish jobs r) q ≡ (if q == r then false else active jobs q)
unfolding active finish
active-finish r q jobs = rw (lookup-erase q r jobs, active) (ground arith)

-- Every ending clears the mark.
pub run_index_job-finish :
    (jobs : Tracker) (repo : Text) (ending : Ending)
    → run_index_job jobs repo ending ≡ finish jobs repo
unfolding run_index_job
run_index_job-finish jobs repo completed = refl
run_index_job-finish jobs repo (index_failed e) = refl
run_index_job-finish jobs repo (panicked v) = refl

IsExclusive-same :
    (s : State) (h : Handled)
    → IsExclusive s
    → h.jobs ≡ s.jobs
    → h.started ≡ []
    → IsExclusive (record { jobs = h.jobs; workers = h.started ++ s.workers })
IsExclusive-same s h inv same idle = rw (same, idle) inv

request-IsExclusive :
    (fs : FileSystem) (cfg : Config) (s : State) (header repo : Text) (now : ℕ) (h : Handled)
    → IsExclusive s
    → UpdateOutcome fs cfg s.jobs header repo now h
    → IsExclusive (record { jobs = h.jobs; workers = h.started ++ s.workers })
request-IsExclusive fs cfg s header repo now h inv (stopped _ j w) = IsExclusive-same s h inv j w
request-IsExclusive fs cfg s header repo now h inv (bad_name _ j w) = IsExclusive-same s h inv j w
request-IsExclusive fs cfg s header repo now h inv (missing _ j w) = IsExclusive-same s h inv j w
request-IsExclusive fs cfg s header repo now h inv (busy _ j w) = IsExclusive-same s h inv j w
request-IsExclusive fs cfg s header repo now h inv (launched (_, _, free, _) j w) =
    rw (j, w)
      (record {
        distinct = (sym (inv.marked repo) ∙ free, inv.distinct);
        marked = λ r. active-insert repo r now s.jobs ∙ ap (λ b. r == repo || b) (inv.marked r);
      })

Step-IsExclusive :
    (fs : FileSystem) (cfg : Config) (s t : State) → IsExclusive s → Step fs cfg s t → IsExclusive t
Step-IsExclusive fs cfg s _ inv (request header repo now h e) =
    request-IsExclusive fs cfg s header repo now h inv
      (rw e (handle_update_outcome fs cfg s.jobs header repo now))
Step-IsExclusive fs cfg s _ inv (ends repo ending _) = record {
  distinct = Distinct-leave repo s.workers inv.distinct;
  marked = λ r. rw (run_index_job-finish s.jobs repo ending) (
      active-finish repo r s.jobs
      ∙ ap (λ b. if r == repo then false else b) (inv.marked r)
      ∙ sym (contains-leave repo r s.workers inv.distinct));
}

-- Whatever requests come and however workers end, no repository ever has two workers at once,
-- and a repository is marked as being indexed just when a worker of it runs.
pub Reachable-IsExclusive :
    (fs : FileSystem) (cfg : Config) (s : State) → Reachable fs cfg s → IsExclusive s
unfolding active
Reachable-IsExclusive fs cfg _ start = record {
  distinct = tt;
  marked = λ r. rw (lookup-nil r, active) refl;
}
Reachable-IsExclusive fs cfg t (then_step s _ run step) =
    Step-IsExclusive fs cfg s t (Reachable-IsExclusive fs cfg s run) step
