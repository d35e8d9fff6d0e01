-- ===== src/Tests/Server.antt =====
-- Runs of internal/httpapi on a host with one repository.
use dotfs_mcp_server.Httpapi.Server.Restart.{handle_update-after_end}
use dotfs_mcp_server.Base.{
  ok, nat_eq, lookup, insert, trim_prefix, trim_left_reversed, trim_left, split, join, has_prefix,
  occurs, trim_space, ◌≡◌, refl, [], ◌∷◌, ◌++◌, txt, bytes_eq,
}
use dotfs_mcp_server.Httpapi.Server.{
  run_index_job, panicked, claim_path, claim_name, claim, authorized, Config, Handled,
  handle_update,
}
use dotfs_mcp_server.Utils.Paths.{
  is_abs, clean_step, clean_loop, elements, strip_common, way, join_path, clean, rel_clean, rel,
}
use dotfs_mcp_server.Utils.Names.{
  is_name_char, is_alnum, all_name_chars, matches_name, validate_repo_name,
}
use dotfs_mcp_server.Httpapi.Jobs.{try_start}
use dotfs_mcp_server.Utils.Safe.{is_within_repo, safe_repo_path}
use dotfs_mcp_server.Ast.{blank}
use dotfs_mcp_server.Httpapi.Server.Laws.{UpdateOutcome, handle_update_outcome}
use dotfs_mcp_server.Httpapi.Server.Workers.{
  State, request, Reachable, start, then_step, IsExclusive, Reachable-IsExclusive,
}
use dotfs_mcp_server.Tests.Data.{host}

abbrev config : Config
config = record { api_token = []; workspace_root = txt "/w" }

handle_update_outcome_example :
    UpdateOutcome host config [] [] (txt "demo") 7 (handle_update host config [] [] (txt "demo") 7)
handle_update_outcome_example = handle_update_outcome host config [] [] (txt "demo") 7

abbrev first : Handled
first = handle_update host config [] [] (txt "demo") 7

-- The repository is being indexed, and is asked for again.
abbrev indexing : State
indexing = record { jobs = first.jobs; workers = first.started ++ [] }

abbrev second : Handled
second = handle_update host config first.jobs [] (txt "demo") 8

abbrev asked_twice : State
asked_twice = record { jobs = second.jobs; workers = second.started ++ (first.started ++ []) }

asked_twice-Reachable : Reachable host config asked_twice
asked_twice-Reachable =
    then_step indexing asked_twice
      (then_step (record { jobs = []; workers = [] }) indexing start
        (request [] (txt "demo") 7 first refl))
      (request [] (txt "demo") 8 second refl)

Reachable-IsExclusive_example : IsExclusive asked_twice
Reachable-IsExclusive_example = Reachable-IsExclusive host config asked_twice asked_twice-Reachable

one_worker : asked_twice.workers ≡ txt "demo" ∷ []
unfolding handle_update authorized bytes_eq validate_repo_name blank trim_space occurs matches_name
    safe_repo_path is_within_repo rel rel_clean clean join_path way strip_common elements try_start
    has_prefix join split trim_left trim_left_reversed trim_prefix insert lookup nat_eq claim
    claim_name claim_path all_name_chars is_alnum is_name_char clean_loop clean_step is_abs
one_worker = refl

demo_found : safe_repo_path host (txt "/w") (txt "demo") ≡ ok (txt "/w/demo")
unfolding safe_repo_path validate_repo_name blank trim_space bytes_eq occurs matches_name
    is_within_repo rel rel_clean clean join_path way strip_common elements
demo_found = refl

handle_update-after_end_example :
    (handle_update host config
      (run_index_job first.jobs (txt "demo") (panicked (txt "parser")))
      []
      (txt "demo")
      9).response.status
    ≡ 202
unfolding authorized bytes_eq
handle_update-after_end_example =
    handle_update-after_end host config first.jobs (panicked (txt "parser")) [] (txt "demo")
      (txt "/w/demo") 9 refl demo_found
