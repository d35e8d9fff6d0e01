-- ===== src/Httpapi/Server.antt =====
-- internal/httpapi/server.go: the handlers, and the background worker of an update.
pub mod Laws
pub mod Workers
pub mod Restart
use dotfs_mcp_server.Base.{
  ℕ, Bool, true, false, not, ◌==◌, nat_eq, bytes_eq, List, [], ◌∷◌, map, Text, txt, has_prefix,
  trim_prefix, trim_space, is_empty, Result, ok, err, Error, if◌then◌else◌, ◌-◌,
}
use dotfs_mcp_server.Utils.Files.{FileSystem}
use dotfs_mcp_server.Utils.Names.{validate_repo_name}
use dotfs_mcp_server.Utils.Safe.{safe_repo_path}
use dotfs_mcp_server.Httpapi.Jobs.{Tracker, try_start, finish, active}

-- `Config`, as far as a handler reads it
pub record Config : Type 0 where
  pub api_token : Text
  pub workspace_root : Text

-- The bodies that `writeJSON` encodes.
pub data Body : Type 0 where
  unauthorized : Body
  refused : Text → Error → Body
  running : Text → ℕ → Body
  accepted : Text → ℕ → Body
  repositories : List (Text × Bool) → Body
  failed healthy : Body

pub record Response : Type 0 where
  pub status : ℕ
  pub body : Body

abbrev pub status_ok : ℕ
status_ok = 200

abbrev pub status_accepted : ℕ
status_accepted = 202

abbrev pub status_bad_request : ℕ
status_bad_request = 400

abbrev pub status_unauthorized : ℕ
status_unauthorized = 401

abbrev pub status_not_found : ℕ
status_not_found = 404

abbrev pub status_conflict : ℕ
status_conflict = 409

abbrev pub status_internal : ℕ
status_internal = 500

abbrev bearer : Text
bearer = txt "Bearer "

-- `authorized`, on the Authorization header
unfoldable pub authorized : Config → Text → Bool
authorized cfg header =
    if cfg.api_token == []
    then true
    else if not (has_prefix bearer header)
    then false
    else trim_space (trim_prefix bearer header) == cfg.api_token

-- What a handler leaves: the response, the tracker, and the workers it starts.
pub record Handled : Type 0 where
  pub response : Response
  pub jobs : Tracker
  pub started : List Text

abbrev pub reply : ℕ → Body → Tracker → Handled
reply status body jobs = record {
  response = record { status = status; body = body };
  jobs = jobs;
  started = [];
}

-- What follows on `TryStart`
unfoldable pub claim : Text → ℕ → (Bool × ℕ) × Tracker → Handled
claim repo now ((false, since), jobs) = reply status_conflict (running repo (now - since)) jobs
claim repo now ((true, since), jobs) = record {
  response = record { status = status_accepted; body = accepted repo since };
  jobs = jobs;
  started = repo ∷ [];
}

unfoldable pub claim_path : Tracker → Text → ℕ → Result Text → Handled
unfolding claim
claim_path jobs repo now (err e) = reply status_not_found (refused repo e) jobs
claim_path jobs repo now (ok path) = claim repo now (try_start jobs repo now)

unfoldable pub claim_name : FileSystem → Text → Tracker → Text → ℕ → Result (Unit {0}) → Handled
unfolding claim_path
claim_name fs root jobs repo now (err e) = reply status_bad_request (refused repo e) jobs
claim_name fs root jobs repo now (ok _) = claim_path jobs repo now (safe_repo_path fs root repo)

-- `handleUpdate`
unfoldable pub handle_update : FileSystem → Config → Tracker → Text → Text → ℕ → Handled
unfolding claim_name
handle_update fs cfg jobs header repo now =
    if not (authorized cfg header)
    then reply status_unauthorized unauthorized jobs
    else claim_name fs cfg.workspace_root jobs repo now (validate_repo_name repo)

-- How `IndexRepo` ends in the worker.
pub data Ending : Type 0 where
  completed : Ending
  index_failed : Error → Ending
  panicked : Text → Ending

-- `runIndexJob`: the deferred `Finish` runs whatever the ending is.
unfoldable pub run_index_job : Tracker → Text → Ending → Tracker
run_index_job jobs repo completed = finish jobs repo
run_index_job jobs repo (index_failed e) = finish jobs repo
run_index_job jobs repo (panicked value) = finish jobs repo

-- `handleListRepos`, on what `ListRepos` answers
unfoldable pub handle_list_repos : Config → Tracker → Text → Result (List Text) → Response
handle_list_repos cfg jobs header listed =
    if not (authorized cfg header)
    then record { status = status_unauthorized; body = unauthorized }
    else elim listed [
      | err e ↦ record { status = status_internal; body = failed }
      | ok repos ↦ record {
        status = status_ok;
        body = repositories (map (λ name. (name, active jobs name)) repos);
      }
    ]

-- `handleHealth`
unfoldable pub handle_health : Response
handle_health = record { status = status_ok; body = healthy }
