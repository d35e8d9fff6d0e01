-- ===== src/Mcpserver/Queries.antt =====
-- internal/mcpserver/server.go: what the handlers of the retrieval tools read from a request.
pub mod Laws
use dotfs_mcp_server.Base.{
  Bool, true, false, Option, none, some, List, [], ◌∷◌, Text, txt, ℤ, trim_space, is_empty, Result,
  ok, err, if◌then◌else◌,
}
use dotfs_mcp_server.Ast.{
  SymbolType, callable_types, type_definition_types, macro_const_types, parse_symbol_type,
}
use dotfs_mcp_server.Mcpserver.{Request, error_from}
use dotfs_mcp_server.Mcpserver.Arguments.{
  Read, refused, got, ◌>>=◌, required_string, or_refuse, optional_repo, required_repo,
}
use dotfs_mcp_server.Mcpserver.Resolve.{Query}

-- The optional `symbol_type` of `lookup_symbol`
abbrev parsed_type : Result SymbolType → Read (List SymbolType)
parsed_type (err e) = refused (error_from (txt "invalid symbol_type") e)
parsed_type (ok t) = got (t ∷ [])

unfoldable pub wanted_types : Request → Read (List SymbolType)
unfolding trim_space parse_symbol_type
wanted_types req =
    let raw = trim_space (req.get_string (txt "symbol_type") []) in
    if is_empty raw then got [] else parsed_type (parse_symbol_type raw)

-- The queries of the four tools that look a name up.
unfoldable pub global_search_query : Request → Read Query
unfolding required_string
global_search_query req = do
  target ←
      or_refuse (txt "target_function_name is required and must be a non-empty string")
        (required_string req (txt "target_function_name"))
  got (record { name = target; repo = []; types = callable_types; exact = true })

unfoldable pub lookup_symbol_query : Request → Read Query
unfolding required_string optional_repo wanted_types
lookup_symbol_query req = do
  name ←
      or_refuse (txt "name is required and must be a non-empty string")
        (required_string req (txt "name"))
  repo ← optional_repo req
  types ← wanted_types req
  got (record { name = name; repo = repo; types = types; exact = false })

unfoldable pub type_definition_query : Request → Read Query
unfolding required_string optional_repo
type_definition_query req = do
  name ←
      or_refuse (txt "type_name is required and must be a non-empty string")
        (required_string req (txt "type_name"))
  repo ← optional_repo req
  got (record { name = name; repo = repo; types = type_definition_types; exact = true })

unfoldable pub macro_or_const_query : Request → Read Query
unfolding required_string optional_repo
macro_or_const_query req = do
  name ←
      or_refuse (txt "name is required and must be a non-empty string")
        (required_string req (txt "name"))
  repo ← optional_repo req
  got (record { name = name; repo = repo; types = macro_const_types; exact = true })

-- The arguments of `read_code_snippet`
pub record SnippetRange : Type 0 where
  pub repo : Text
  pub path : Text
  pub start : ℤ
  pub stop : ℤ

unfoldable pub snippet_range : Request → Read SnippetRange
unfolding required_repo required_string
snippet_range req = do
  repo ← required_repo req
  path ←
      or_refuse (txt "file_path is required and must be a non-empty string")
        (required_string req (txt "file_path"))
  start ←
      or_refuse (txt "start_line is required and must be an integer")
        (req.require_int (txt "start_line"))
  stop ←
      or_refuse (txt "end_line is required and must be an integer")
        (req.require_int (txt "end_line"))
  got (record { repo = repo; path = path; start = start; stop = stop })
