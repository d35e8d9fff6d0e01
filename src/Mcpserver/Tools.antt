-- ===== src/Mcpserver/Tools.antt =====
-- internal/mcpserver/server.go: the tools, their arguments, and `New`. The descriptions, which are
-- prose for the client, are left out.
pub mod Strict
pub mod Laws
use dotfs_mcp_server.Base.{
  ℕ, Bool, true, false, ◌||◌, Option, none, some, List, [], ◌∷◌, ◌++◌, Text, txt, Result, ok, err,
  message, ◌>>◌, reject_if, if◌then◌else◌,
}
use dotfs_mcp_server.Ast.{symbol_types}
use dotfs_mcp_server.Capabilities.{Matrix}
use dotfs_mcp_server.Xref.Service.Calls.{direction_incoming, direction_outgoing}
use dotfs_mcp_server.Xref.Service.Hierarchy.{
  direction_supertypes, direction_subtypes, direction_both,
}
use dotfs_mcp_server.Mcpserver.{
  Request, ToolResult, Cache, LiveScanner, CrossReference, Codec, Deps,
}
use dotfs_mcp_server.Mcpserver.Retrieval.{
  handle_global_search, handle_lookup_symbol, handle_type_definition, handle_macro_or_const,
  handle_read_snippet, handle_list_capabilities,
}
use dotfs_mcp_server.Mcpserver.Relations.{
  handle_find_references, handle_call_hierarchy, handle_implementations, handle_type_hierarchy,
}

-- `WithString` with its `Enum`, `WithNumber` with its `Min`, `WithBoolean`
pub data Kind : Type 0 where
  string : List Text → Kind
  number : ℕ → Kind
  boolean : Kind

-- An argument in the schema of a tool
pub record Argument : Type 0 where
  pub key : Text
  pub kind : Kind
  pub required : Bool

-- `mcp.Tool`
pub record Tool : Type 0 where
  pub name : Text
  pub title : Text
  pub arguments : List Argument

abbrev required_text : Text → Argument
required_text key = record { key = key; kind = string []; required = true }

abbrev optional_repo_name : Argument
optional_repo_name = record { key = txt "repo_name"; kind = string []; required = false }

abbrev required_number : Text → Argument
required_number key = record { key = key; kind = number 1; required = true }

-- `symbolTypeNames`
unfoldable pub symbol_type_names : List Text
unfolding symbol_types
symbol_type_names = symbol_types

-- `searchTool`
abbrev pub search_tool : Tool
search_tool = record {
  name = txt "global_codebase_search";
  title = txt "Global codebase search";
  arguments = required_text (txt "target_function_name") ∷ [];
}

-- `lookupSymbolTool`
unfoldable pub lookup_symbol_tool : Tool
unfolding symbol_type_names
lookup_symbol_tool = record {
  name = txt "lookup_symbol";
  title = txt "Look up any symbol";
  arguments =
      required_text (txt "name")
      ∷ optional_repo_name
      ∷ record { key = txt "symbol_type"; kind = string symbol_type_names; required = false }
      ∷ [];
}

-- `typeDefinitionTool`
abbrev pub type_definition_tool : Tool
type_definition_tool = record {
  name = txt "get_type_definition";
  title = txt "Get a type definition";
  arguments = required_text (txt "type_name") ∷ optional_repo_name ∷ [];
}

-- `macroOrConstTool`
abbrev pub macro_or_const_tool : Tool
macro_or_const_tool = record {
  name = txt "lookup_macro_or_const";
  title = txt "Resolve a macro or constant";
  arguments = required_text (txt "name") ∷ optional_repo_name ∷ [];
}

-- `readSnippetTool`
abbrev pub read_snippet_tool : Tool
read_snippet_tool = record {
  name = txt "read_code_snippet";
  title = txt "Read a code snippet";
  arguments =
      required_text (txt "repo_name")
      ∷ required_text (txt "file_path")
      ∷ required_number (txt "start_line")
      ∷ required_number (txt "end_line")
      ∷ [];
}

-- `capabilitiesTool`
abbrev pub capabilities_tool : Tool
capabilities_tool = record {
  name = txt "list_repo_capabilities";
  title = txt "List repository capabilities";
  arguments = required_text (txt "repo_name") ∷ [];
}

-- `positionArgs`
abbrev pub position_args : List Argument
position_args =
    required_text (txt "repo_name")
    ∷ required_text (txt "file_path")
    ∷ required_number (txt "line")
    ∷ required_number (txt "character")
    ∷ []

-- The argument of `find_references` beside its position
abbrev pub declaration_argument : Argument
declaration_argument = record { key = txt "include_declaration"; kind = boolean; required = false }

-- `findReferencesTool`
abbrev pub find_references_tool : Tool
find_references_tool = record {
  name = txt "find_references";
  title = txt "Find all references";
  arguments = position_args ++ declaration_argument ∷ [];
}

-- The argument of `get_call_hierarchy` beside its position
abbrev pub call_direction_argument : Argument
call_direction_argument = record {
  key = txt "direction";
  kind = string (direction_incoming ∷ direction_outgoing ∷ []);
  required = true;
}

-- `callHierarchyTool`
abbrev pub call_hierarchy_tool : Tool
call_hierarchy_tool = record {
  name = txt "get_call_hierarchy";
  title = txt "Get call hierarchy";
  arguments = position_args ++ call_direction_argument ∷ [];
}

-- `implementationsTool`
abbrev pub implementations_tool : Tool
implementations_tool = record {
  name = txt "find_interface_implementations";
  title = txt "Find implementations";
  arguments = position_args;
}

-- The argument of `get_type_hierarchy` beside its position
abbrev pub type_direction_argument : Argument
type_direction_argument = record {
  key = txt "direction";
  kind = string (direction_supertypes ∷ direction_subtypes ∷ direction_both ∷ []);
  required = false;
}

-- `typeHierarchyTool`
abbrev pub type_hierarchy_tool : Tool
type_hierarchy_tool = record {
  name = txt "get_type_hierarchy";
  title = txt "Get type hierarchy";
  arguments = position_args ++ type_direction_argument ∷ [];
}

abbrev pub Handler : Type 0 → Type 0
Handler S = Request → S → ToolResult × S

-- The tools on the cache and the files, as `New` adds them
abbrev pub retrieval_tools : {S : Type 0} → Deps S → List (Tool × Handler S)
retrieval_tools d =
    (search_tool, handle_global_search d)
    ∷ (lookup_symbol_tool, handle_lookup_symbol d)
    ∷ (type_definition_tool, handle_type_definition d)
    ∷ (macro_or_const_tool, handle_macro_or_const d)
    ∷ (read_snippet_tool, handle_read_snippet d)
    ∷ (capabilities_tool, handle_list_capabilities d)
    ∷ []

-- The tools on the language servers, if there is an engine
abbrev pub relation_tools : {S : Type 0} → Codec → Option CrossReference → List (Tool × Handler S)
relation_tools json none = []
relation_tools json (some engine) =
    (find_references_tool, λ req s. (handle_find_references engine json req, s))
    ∷ (call_hierarchy_tool, λ req s. (handle_call_hierarchy engine json req, s))
    ∷ (implementations_tool, λ req s. (handle_implementations engine json req, s))
    ∷ (type_hierarchy_tool, λ req s. (handle_type_hierarchy engine json req, s))
    ∷ []

-- The checks of `New`; a pointer or an interface may be nil.
pub record Collaborators (S : Type 0) : Type 0 where
  pub cache : Option (Cache S)
  pub scanner : Option (LiveScanner S)
  pub matrix : Option Matrix
  pub has_log : Bool
  pub live_scan : Bool
  pub engine : Option CrossReference
  pub json : Codec

abbrev pub checked :
    {S : Type 0}
    → Collaborators S
    → Option (Cache S)
    → Option (LiveScanner S)
    → Option Matrix
    → Bool
    → Result (Deps S)
checked c (some cache) (some scanner) (some matrix) true = ok (record {
  cache = cache;
  scanner = scanner;
  matrix = matrix;
  live_scan = c.live_scan;
  json = c.json;
})
checked c _ _ _ _ = err (message (txt "mcpserver: cache, scanner, matrix and logger are required"))

abbrev pub registered :
    {S : Type 0} → Collaborators S → Result (Deps S) → Result (List (Tool × Handler S))
registered c (err e) = err e
registered c (ok d) = ok (retrieval_tools d ++ relation_tools c.json c.engine)

-- `New`
unfoldable pub new_server : {S : Type 0} → Collaborators S → Result (List (Tool × Handler S))
new_server c = registered c (checked c c.cache c.scanner c.matrix c.has_log)
