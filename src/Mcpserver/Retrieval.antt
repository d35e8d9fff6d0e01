-- ===== src/Mcpserver/Retrieval.antt =====
-- internal/mcpserver/server.go: the handlers of the tools that read the cache and the files.
pub mod Laws
use dotfs_mcp_server.Base.{
  ℕ, Bool, true, false, not, ◌&&◌, Option, none, some, List, [], ◌∷◌, ◌++◌, map, Text, txt,
  trim_space, is_empty, length, lookup, bytes_eq, Result, ok, err, Error, if◌then◌else◌,
}
use dotfs_mcp_server.Ast.{SymbolRecord}
use dotfs_mcp_server.Store.Stats.{Stats, RepoStat, stat_or_empty}
use dotfs_mcp_server.Capabilities.{Observation, lookup_profile, describe}
use dotfs_mcp_server.Mcpserver.{
  Request, ToolResult, text_result, error_result, error_from, Deps, render_json,
}
use dotfs_mcp_server.Mcpserver.Arguments.{Read, refused, got, required_repo}
use dotfs_mcp_server.Mcpserver.Queries.{
  global_search_query, lookup_symbol_query, type_definition_query, macro_or_const_query,
  SnippetRange, snippet_range,
}
use dotfs_mcp_server.Mcpserver.Resolve.{Query, resolve}

-- `notFoundMessage`
unfoldable pub not_found_message : Text → Text → ToolResult
not_found_message kind target =
    error_result
      (txt "No indexed %s named %q was found in any repository. Verify the exact "
        ++ txt "identifier spelling, or re-index the owning repository via POST "
        ++ txt "/api/v1/<repo_name>/update before retrying.")
      (kind ∷ target ∷ [])

abbrev pub snippet_answer : Result Text → ToolResult
snippet_answer (err e) = error_from (txt "could not read the requested snippet") e
snippet_answer (ok snippet) = text_result snippet

-- What the cache shows of a repository. Without an entry the counts are those of a zero value.
unfoldable pub observe : Option RepoStat → Observation
observe none = record {
  indexed = false;
  symbol_count = 0;
  function_count = 0;
  file_count = 0;
  languages = [];
  symbol_types = [];
  samples = [];
}
observe (some stat) = record {
  indexed = true;
  symbol_count = stat.symbols;
  function_count = stat.functions;
  file_count = length stat.files;
  languages = stat.languages;
  symbol_types = stat.symbol_types;
  samples = stat.samples;
}

-- The repositories to name when nothing is known of the one asked for
abbrev known_repos : Result (List Text) → List Text
known_repos (err e) = []
known_repos (ok known) = known

module _ {S : Type 0} (d : Deps S) where
  -- What a handler answers to the records that were found.
  unfoldable pub answer_all : Text → Text → Text → Result (List SymbolRecord) → ToolResult
  unfolding not_found_message render_json
  answer_all kind failure name (err e) = error_from failure e
  answer_all kind failure name (ok []) = not_found_message kind name
  answer_all kind failure name (ok (rec ∷ records)) =
      render_json (d.json.records_json (rec ∷ records))

  -- The same where one record is rendered on its own
  unfoldable pub answer_one : Text → Result (List SymbolRecord) → ToolResult
  unfolding not_found_message render_json
  answer_one name (err e) = error_from (txt "global codebase search failed") e
  answer_one name (ok []) = not_found_message (txt "function") name
  answer_one name (ok (rec ∷ [])) = render_json (d.json.record_json rec)
  answer_one name (ok (rec ∷ next ∷ records)) =
      render_json (d.json.records_json (rec ∷ next ∷ records))

  -- A handler behind its arguments
  unfoldable pub with_query :
      (Text → Result (List SymbolRecord) → ToolResult) → Read Query → S → ToolResult × S
  unfolding resolve
  with_query respond (refused answer) s = (answer, s)
  with_query respond (got q) s = let found = resolve d q s in (respond q.name found.0, found.1)

  -- `handleGlobalSearch`
  unfoldable pub handle_global_search : Request → S → ToolResult × S
  unfolding with_query answer_one global_search_query
  handle_global_search req s = with_query answer_one (global_search_query req) s

  -- `handleLookupSymbol`
  unfoldable pub handle_lookup_symbol : Request → S → ToolResult × S
  unfolding with_query answer_all lookup_symbol_query
  handle_lookup_symbol req s =
      with_query (answer_all (txt "symbol") (txt "symbol lookup failed")) (lookup_symbol_query req)
        s

  -- `handleTypeDefinition`
  unfoldable pub handle_type_definition : Request → S → ToolResult × S
  unfolding with_query answer_all type_definition_query
  handle_type_definition req s =
      with_query (answer_all (txt "type") (txt "type definition lookup failed"))
        (type_definition_query req) s

  -- `handleMacroOrConst`
  unfoldable pub handle_macro_or_const : Request → S → ToolResult × S
  unfolding with_query answer_all macro_or_const_query
  handle_macro_or_const req s =
      with_query (answer_all (txt "macro or constant") (txt "macro or constant lookup failed"))
        (macro_or_const_query req) s

  -- `handleReadSnippet`
  abbrev pub answer_snippet : Read SnippetRange → ToolResult
  answer_snippet (refused answer) = answer
  answer_snippet (got r) = snippet_answer (d.scanner.read_snippet r.repo r.path r.start r.stop)

  unfoldable pub handle_read_snippet : Request → S → ToolResult × S
  unfolding snippet_range
  handle_read_snippet req s = (answer_snippet (snippet_range req), s)

  unfoldable pub briefing : Text → Option RepoStat → ToolResult
  unfolding observe lookup_profile describe
  briefing repo stat =
      let text = text_result (describe d.matrix repo (observe stat)) in
      elim (lookup_profile d.matrix repo) [
        | some p ↦ text
        | none ↦ elim stat [
          | some st ↦ text
          | none ↦ elim (known_repos d.scanner.list_repos) [
            | [] ↦ text
            | first ∷ others ↦
                error_result (txt "Unknown repository %q. Known repositories: %s.")
                  (repo ∷ first ∷ others)
          ]
        ]
      ]

  abbrev pub answer_stats : Text → Result Stats → ToolResult
  answer_stats repo (err e) = error_from (txt "cache statistics failed") e
  answer_stats repo (ok all) = briefing repo (lookup repo all)

  abbrev pub answer_capabilities : Read Text → S → ToolResult
  answer_capabilities (refused answer) s = answer
  answer_capabilities (got repo) s = answer_stats repo (d.cache.stats s)

  -- `handleListCapabilities`
  unfoldable pub handle_list_capabilities : Request → S → ToolResult × S
  unfolding required_repo briefing lookup
  handle_list_capabilities req s = (answer_capabilities (required_repo req) s, s)
