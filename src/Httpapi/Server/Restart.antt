-- ===== src/Httpapi/Server/Restart.antt =====
-- internal/httpapi: updates of a repository whose worker has ended.
use dotfs_mcp_server.Base.{
  ℕ, ◌≡◌, sym, ap, ◌∙◌, true, false, Text, ok, bytes_eq, ==-refl, >>=-eq-ok, if◌then◌else◌,
}
use dotfs_mcp_server.Utils.Files.{FileSystem}
use dotfs_mcp_server.Utils.Names.{validate_repo_name}
use dotfs_mcp_server.Utils.Safe.{safe_repo_path}
use dotfs_mcp_server.Httpapi.Jobs.{Tracker, active}
use dotfs_mcp_server.Httpapi.Server.{
  Config, Handled, Ending, authorized, handle_update, run_index_job, status_accepted,
}
use dotfs_mcp_server.Httpapi.Server.Laws.{
  UpdateOutcome, stopped, bad_name, missing, busy, launched, handle_update_outcome,
}
use dotfs_mcp_server.Httpapi.Server.Workers.{active-finish, run_index_job-finish}

-- A repository that is found in the workspace has a valid name.
safe_repo_path-valid :
    (fs : FileSystem) (root repo path : Text)
    → safe_repo_path fs root repo ≡ ok path
    → validate_repo_name repo ≡ ok tt
unfolding safe_repo_path
safe_repo_path-valid fs root repo path found =
    let (u, valid, rest) = >>=-eq-ok (validate_repo_name repo) _ found in valid

accepted :
    (fs : FileSystem) (cfg : Config) (jobs : Tracker) (header repo path : Text) (now : ℕ)
    (h : Handled)
    → authorized cfg header ≡ true
    → safe_repo_path fs cfg.workspace_root repo ≡ ok path
    → active jobs repo ≡ false
    → UpdateOutcome fs cfg jobs header repo now h
    → h.response.status ≡ status_accepted
accepted fs cfg jobs header repo path now h token found free (stopped (no_token, _) _ _) =
    let clash : true ≡ false = sym token ∙ no_token in cc
accepted fs cfg jobs header repo path now h token found free (bad_name (_, (e, bad), _) _ _) =
    let clash = sym bad ∙ safe_repo_path-valid fs cfg.workspace_root repo path found in cc
accepted fs cfg jobs header repo path now h token found free (missing (_, _, (e, bad), _) _ _) =
    let clash = sym bad ∙ found in cc
accepted fs cfg jobs header repo path now h token found free (busy (_, _, runs, _) _ _) =
    let clash : true ≡ false = sym runs ∙ free in cc
accepted fs cfg jobs header repo path now h token found free (launched (_, _, _, status) _ _) =
    status

-- However the worker of a repository ends, by an error or a panic too, the next update request for it
-- that is authorized and finds the repository is accepted.
pub handle_update-after_end :
    (fs : FileSystem) (cfg : Config) (jobs : Tracker) (ending : Ending) (header repo path : Text)
    (now : ℕ)
    → authorized cfg header ≡ true
    → safe_repo_path fs cfg.workspace_root repo ≡ ok path
    → (handle_update fs cfg (run_index_job jobs repo ending) header repo now).response.status
      ≡ status_accepted
handle_update-after_end fs cfg jobs ending header repo path now token found =
    let left = run_index_job jobs repo ending in
    let free : active left repo ≡ false =
      ap (λ t. active t repo) (run_index_job-finish jobs repo ending)
      ∙ active-finish repo repo jobs
      ∙ ap (λ b. if b then false else active jobs repo) (==-refl repo) in
    accepted fs cfg left header repo path now _ token found free
      (handle_update_outcome fs cfg left header repo now)
