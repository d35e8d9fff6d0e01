-- ===== src/Mcpserver/Advice/Laws.antt =====
-- internal/mcpserver/server.go: the guidance depends on the cause alone.
use dotfs_mcp_server.Base.{
  ◌≡◌, refl, Bool, false, ◌||◌, Option, none, some, Text, Error, message, sentinel, wrap, response,
  Sentinel, same_sentinel, error_is, not_found, xref_timeout, deadline_exceeded,
  no_compile_commands, no_go_module, unsupported_language, unsupported_go_language, daemon_exited,
  manager_closed, canceled, if◌then◌else◌,
}
use dotfs_mcp_server.Xref.Service.{Place}
use dotfs_mcp_server.Mcpserver.{ToolResult}
use dotfs_mcp_server.Mcpserver.Advice.{
  xref_error, timeout_advice, compile_commands_advice, go_module_advice, language_advice,
  go_language_advice, crash_advice, plain_failure,
}

-- The sentinel at the bottom of a chain of wrapped errors
abbrev pub cause : Error → Option Sentinel
cause (message m) = none
cause (sentinel t) = some t
cause (wrap m e) = cause e
cause (response c m) = none

-- One piece of guidance for each cause
abbrev pub guidance : Text → Place → Error → Option Sentinel → ToolResult
guidance tool place e (some xref_timeout) = timeout_advice tool place
guidance tool place e (some deadline_exceeded) = timeout_advice tool place
guidance tool place e (some no_compile_commands) = compile_commands_advice place
guidance tool place e (some no_go_module) = go_module_advice place
guidance tool place e (some unsupported_language) = language_advice e
guidance tool place e (some unsupported_go_language) = go_language_advice e
guidance tool place e (some daemon_exited) = crash_advice e
guidance tool place e _ = plain_failure tool e

is_cause : Option Sentinel → Sentinel → Bool
is_cause none t = false
is_cause (some s) t = same_sentinel s t

error_is-cause : (e : Error) (t : Sentinel) → error_is e t ≡ is_cause (cause e) t
unfolding error_is is_cause
error_is-cause (message m) t = refl
error_is-cause (sentinel s) t = refl
error_is-cause (wrap m e) t = error_is-cause e t
error_is-cause (response c m) t = refl

-- The switch on a cause
switched : Text → Place → Error → Option Sentinel → ToolResult
unfolding is_cause
switched tool place e c =
    if is_cause c xref_timeout || is_cause c deadline_exceeded
    then timeout_advice tool place
    else if is_cause c no_compile_commands
    then compile_commands_advice place
    else if is_cause c no_go_module
    then go_module_advice place
    else if is_cause c unsupported_language
    then language_advice e
    else if is_cause c unsupported_go_language
    then go_language_advice e
    else if is_cause c daemon_exited
    then crash_advice e
    else plain_failure tool e

switched-guidance :
    (tool : Text) (place : Place) (e : Error) (c : Option Sentinel)
    → switched tool place e c ≡ guidance tool place e c
unfolding switched same_sentinel
switched-guidance tool place e none = refl
switched-guidance tool place e (some not_found) = refl
switched-guidance tool place e (some unsupported_language) = refl
switched-guidance tool place e (some unsupported_go_language) = refl
switched-guidance tool place e (some no_compile_commands) = refl
switched-guidance tool place e (some no_go_module) = refl
switched-guidance tool place e (some manager_closed) = refl
switched-guidance tool place e (some daemon_exited) = refl
switched-guidance tool place e (some xref_timeout) = refl
switched-guidance tool place e (some deadline_exceeded) = refl
switched-guidance tool place e (some canceled) = refl

-- The guidance on a failed query depends on the sentinel at the bottom of the chain of errors alone,
-- however deep it is wrapped: a timeout or an expired deadline, a missing compilation database, a
-- missing Go module, an unsupported language, a Go file and a dead daemon each have their own, and
-- anything else is reported as it is.
pub xref_error-guidance :
    (tool : Text) (place : Place) (e : Error)
    → xref_error tool place e ≡ guidance tool place e (cause e)
unfolding xref_error switched
xref_error-guidance tool place e =
    rw
      (
        error_is-cause e xref_timeout,
        error_is-cause e deadline_exceeded,
        error_is-cause e no_compile_commands,
        error_is-cause e no_go_module,
        error_is-cause e unsupported_language,
        error_is-cause e unsupported_go_language,
        error_is-cause e daemon_exited,
      )
      (switched-guidance tool place e (cause e))
