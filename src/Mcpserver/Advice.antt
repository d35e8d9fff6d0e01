-- ===== src/Mcpserver/Advice.antt =====
-- internal/mcpserver/server.go: `xrefError`, the guidance on a failure of the engine.
pub mod Laws
use dotfs_mcp_server.Base.{
  Bool, true, false, ◌||◌, List, [], ◌∷◌, ◌++◌, Text, txt, Error, error_is, xref_timeout,
  deadline_exceeded, no_compile_commands, no_go_module, unsupported_language,
  unsupported_go_language, daemon_exited, if◌then◌else◌,
}
use dotfs_mcp_server.Xref.Service.{Place}
use dotfs_mcp_server.Mcpserver.{ToolResult, error_result, error_from}

-- `GOPLS_INSTRUCTION_FILE`
abbrev pub gopls_instruction_file : Text
gopls_instruction_file = txt "GOPLS_MCP.md"

abbrev pub timeout_advice : Text → Place → ToolResult
timeout_advice tool place =
    error_result
      (txt "Tool execution timeout: the language server did not answer %s in "
        ++ txt "time. The daemon is probably still indexing %s - retry shortly, or "
        ++ txt "use lookup_symbol for the static declaration in the meantime.")
      (tool ∷ place.repo ∷ [])

abbrev pub compile_commands_advice : Place → ToolResult
compile_commands_advice place =
    error_result
      (txt "Repository %q has no compile_commands.json, so clangd cannot resolve "
        ++ txt "its headers. Generate one with 'cmake "
        ++ txt "-DCMAKE_EXPORT_COMPILE_COMMANDS=ON' (or 'bear -- make') and place it "
        ++ txt "in the repository root or its build/ directory. Until then use "
        ++ txt "lookup_symbol and global_codebase_search, which do not need a "
        ++ txt "compilation database.")
      (place.repo ∷ [])

abbrev pub go_module_advice : Place → ToolResult
go_module_advice place =
    error_result
      (txt "Repository %q contains no go.mod, so gopls has no module to load. "
        ++ txt "Fall back to lookup_symbol for the static declaration.")
      (place.repo ∷ [])

abbrev pub language_advice : Error → ToolResult
language_advice e =
    error_from
      (txt "No language server handles this file type. Only .go, .c/.h and C++ "
        ++ txt "sources are supported; use lookup_symbol for anything else that was "
        ++ txt "statically indexed")
      e

abbrev pub go_language_advice : Error → ToolResult
go_language_advice e =
    error_from
      (txt "go language is already supported via native `gopls mcp` tool, check "
        ++ gopls_instruction_file
        ++ txt " for more instructions in workspace root")
      e

abbrev pub crash_advice : Error → ToolResult
crash_advice e =
    error_from
      (txt "The language server crashed while answering. A fresh daemon will be "
        ++ txt "started on the next call, so retrying once is usually enough")
      e

abbrev pub plain_failure : Text → Error → ToolResult
plain_failure tool e = error_from (tool ++ txt " failed") e

-- `xrefError`: the cases in the order of the switch
unfoldable pub xref_error : Text → Place → Error → ToolResult
unfolding error_is
xref_error tool place e =
    if error_is e xref_timeout || error_is e deadline_exceeded
    then timeout_advice tool place
    else if error_is e no_compile_commands
    then compile_commands_advice place
    else if error_is e no_go_module
    then go_module_advice place
    else if error_is e unsupported_language
    then language_advice e
    else if error_is e unsupported_go_language
    then go_language_advice e
    else if error_is e daemon_exited
    then crash_advice e
    else plain_failure tool e
