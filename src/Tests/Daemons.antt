-- ===== src/Tests/Daemons.antt =====
-- Runs of internal/lsp/manager.go.
use dotfs_mcp_server.Base.{
  ◌≡◌, ◌≤◌, ◌⊎◌, refl, true, false, [], Text, txt, contains, lookup, nat_eq, bytes_eq, ok, message,
  arith,
}
use dotfs_mcp_server.Ast.{language_c}
use dotfs_mcp_server.Config.Load.{LspConfig, seconds}
use dotfs_mcp_server.Lsp.Command.{command_for}
use dotfs_mcp_server.Lsp.Command.Laws.{IsClangd, command_for-IsClangd}
use dotfs_mcp_server.Lsp.Manager.{World, new_manager, gave_up, client_session, take_turn, settle}
use dotfs_mcp_server.Lsp.Manager.Steps
use dotfs_mcp_server.Lsp.Manager.Steps.{System, initial, turned, spawn_done}
use dotfs_mcp_server.Lsp.Manager.Laws.{IsKept, Reachable-IsSound}
use dotfs_mcp_server.Lsp.Manager.Session.{Outcome, client_session-IsOutcome}
use dotfs_mcp_server.Tests.Data.{host}

abbrev lsp_config : LspConfig
lsp_config = record {
  gopls_path = txt "gopls";
  clangd_path = txt "clangd";
  clangd_args = [];
  request_timeout = seconds 5;
  init_timeout = seconds 45;
}

command_for-IsClangd_example :
    IsClangd host
      (txt "/w/demo")
      lsp_config
      (command_for host lsp_config (txt "/w/demo") language_c)
command_for-IsClangd_example = command_for-IsClangd host (txt "/w/demo") lsp_config

-- One caller starts a server for a key, and it comes up as client 7.
abbrev demo_key : Text
demo_key = txt "demo|c"

abbrev one_up : System
one_up = spawn_done demo_key 7 (turned demo_key 1 initial)

one_up-Reachable : Steps.Reachable one_up
unfolding take_turn bytes_eq nat_eq lookup
one_up-Reachable =
    Steps.next (Steps.next Steps.here (Steps.turn demo_key 1)) (Steps.done demo_key 7 (omega arith))

Reachable-IsSound_example :
    (one_up.spawning demo_key ≤ 1)
    × ((one_up.manager.closed ≡ false) ⊎ (one_up.manager.clients ≡ []))
    × ((contains one_up.started 7 ≡ false) ⊎ IsKept one_up 7)
Reachable-IsSound_example = Reachable-IsSound one_up-Reachable demo_key 7

-- The server of another caller is awaited, and then the own one comes up.
abbrev calm : World
calm = record {
  alive = λ n c. true;
  alive_after = λ n c. true;
  await = λ n attempt m. (gave_up (message (txt "context canceled")), m);
  spawn = λ n m. (ok 7, m);
  fresh = λ n. n;
}

client_session-IsOutcome_example :
    Outcome calm demo_key new_manager (client_session calm demo_key new_manager).0
client_session-IsOutcome_example = client_session-IsOutcome calm demo_key new_manager

client_session_run : (client_session calm demo_key new_manager).0 ≡ ok 7
unfolding client_session take_turn settle
client_session_run = refl
