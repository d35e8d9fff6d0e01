-- ===== src/Httpapi/Server/Laws.antt =====
-- internal/httpapi/server.go: what an update request does, and the workers that may run.
use dotfs_mcp_server.Base.{
  ℕ, ◌≡◌, refl, true, false, [], ◌∷◌, Text, ok, err, lookup, insert, bytes_eq, inl, inr, Bool-cases,
  Result-cases, Option-cases,
}
use dotfs_mcp_server.Utils.Files.{FileSystem}
use dotfs_mcp_server.Utils.Names.{validate_repo_name}
use dotfs_mcp_server.Utils.Safe.{safe_repo_path}
use dotfs_mcp_server.Httpapi.Jobs.{Tracker, try_start, active}
use dotfs_mcp_server.Httpapi.Server.{
  Config, Handled, authorized, claim, claim_path, claim_name, handle_update, status_accepted,
  status_conflict, status_not_found, status_bad_request, status_unauthorized,
}

-- What an update request does, on the guard that stops it.
pub data UpdateOutcome (fs : FileSystem) (cfg : Config) (jobs : Tracker) (header repo : Text)
    (now : ℕ) (h : Handled) : Type 0 where
  stopped :
      (authorized cfg header ≡ false) × (h.response.status ≡ status_unauthorized)
      → h.jobs ≡ jobs
      → h.started ≡ []
      → UpdateOutcome fs cfg jobs header repo now h
  bad_name :
      (authorized cfg header ≡ true)
        × ((e : _) × (validate_repo_name repo ≡ err e))
        × (h.response.status ≡ status_bad_request)
      → h.jobs ≡ jobs
      → h.started ≡ []
      → UpdateOutcome fs cfg jobs header repo now h
  missing :
      (authorized cfg header ≡ true)
        × (validate_repo_name repo ≡ ok tt)
        × ((e : _) × (safe_repo_path fs cfg.workspace_root repo ≡ err e))
        × (h.response.status ≡ status_not_found)
      → h.jobs ≡ jobs
      → h.started ≡ []
      → UpdateOutcome fs cfg jobs header repo now h
  busy :
      (authorized cfg header ≡ true)
        × ((path : Text) × (safe_repo_path fs cfg.workspace_root repo ≡ ok path))
        × (active jobs repo ≡ true)
        × (h.response.status ≡ status_conflict)
      → h.jobs ≡ jobs
      → h.started ≡ []
      → UpdateOutcome fs cfg jobs header repo now h
  launched :
      (authorized cfg header ≡ true)
        × ((path : Text) × (safe_repo_path fs cfg.workspace_root repo ≡ ok path))
        × (active jobs repo ≡ false)
        × (h.response.status ≡ status_accepted)
      → h.jobs ≡ insert repo now jobs
      → h.started ≡ repo ∷ []
      → UpdateOutcome fs cfg jobs header repo now h

-- An update request answers 401 without the token, whatever else is wrong with it; with the token
-- it answers 400 for a name that is not valid, 404 for a valid name that is no repository of the
-- workspace, 409 for a repository whose worker is running, and starts nothing and changes nothing
-- in these four cases; else it answers 202, marks the repository and starts its worker.
pub handle_update_outcome :
    (fs : FileSystem) (cfg : Config) (jobs : Tracker) (header repo : Text) (now : ℕ)
    → UpdateOutcome fs cfg jobs header repo now (handle_update fs cfg jobs header repo now)
unfolding handle_update claim_name claim_path claim try_start active
handle_update_outcome fs cfg jobs header repo now = elim (Bool-cases (authorized cfg header)) [
  | inr no_token ↦ rw no_token (stopped (no_token, refl) refl refl)
  | inl token ↦ rw token elim (Result-cases (validate_repo_name repo)) [
    | inl (e, bad) ↦ rw bad (bad_name (token, (e, bad), refl) refl refl)
    | inr (u, valid) ↦ rw valid elim (Result-cases (safe_repo_path fs cfg.workspace_root repo)) [
      | inl (e, bad) ↦ rw bad (missing (token, valid, (e, bad), refl) refl refl)
      | inr (path, found) ↦ rw found elim (Option-cases (lookup repo jobs)) [
        | inr (since, is) ↦
            rw (is, claim_path, claim, try_start)
              (busy (token, (path, found), rw (is, active) refl, refl) refl refl)
        | inl free ↦
            rw (free, claim_path, claim, try_start)
              (launched (token, (path, found), rw (free, active) refl, refl) refl refl)
      ]
    ]
  ]
]
