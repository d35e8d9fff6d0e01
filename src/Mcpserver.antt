-- ===== src/Mcpserver.antt =====
-- internal/mcpserver/server.go: the collaborators of the tool handlers, and what a handler answers.
pub mod Arguments
pub mod Resolve
pub mod Advice
pub mod Queries
pub mod Retrieval
pub mod Relations
pub mod Tools
use dotfs_mcp_server.Base.{
  ℕ, Bool, true, false, Option, none, some, List, [], ◌∷◌, Text, txt, ℤ, Result, ok, err, Error,
  wrapped, if◌then◌else◌,
}
use dotfs_mcp_server.Ast.{SymbolType, SymbolRecord}
use dotfs_mcp_server.Store.Backend.{Backend}
use dotfs_mcp_server.Store.Lookup.{Filter, lookup}
use dotfs_mcp_server.Store.Stats.{Stats, stats}
use dotfs_mcp_server.Indexer.Options.{Indexer, list_repos}
use dotfs_mcp_server.Indexer.Files.{Node}
use dotfs_mcp_server.Indexer.Live.{search_live}
use dotfs_mcp_server.Indexer.Snippet.{read_snippet}
use dotfs_mcp_server.Xref.Compact.{Service}
use dotfs_mcp_server.Xref.Service.{Provider, Place}
use dotfs_mcp_server.Xref.Service.Queries.{
  ReferenceResult, ImplementationResult, find_references, implementations,
}
use dotfs_mcp_server.Xref.Service.Calls.{CallHierarchyResult, call_hierarchy}
use dotfs_mcp_server.Xref.Service.Hierarchy.{TypeHierarchyResult, type_hierarchy}
use dotfs_mcp_server.Capabilities.{Matrix}

-- `mcp.CallToolRequest`, by the accessors that the handlers use. `none` is an error.
pub record Request : Type 0 where
  pub require_string : Text → Option Text
  pub get_string : Text → Text → Text
  pub require_int : Text → Option ℤ
  pub get_bool : Text → Bool → Bool

-- `mcp.CallToolResult`: `NewToolResultText`, `NewToolResultError` with the words of a message and
-- the values that its format puts in, and `NewToolResultErrorFromErr`.
pub data ToolResult : Type 0 where
  text_result : Text → ToolResult
  error_result : Text → List Text → ToolResult
  error_from : Text → Error → ToolResult

-- `Cache`, over the state of the database
pub record Cache (S : Type 0) : Type 0 where
  pub lookup : Text → Filter → S → Result (List SymbolRecord)
  pub stats : S → Result Stats

-- `LiveScanner`. A search writes what it finds into the cache.
pub record LiveScanner (S : Type 0) : Type 0 where
  pub search_live : Text → List SymbolType → S → (List SymbolRecord × Option Error) × S
  pub list_repos : Result (List Text)
  pub read_snippet : Text → Text → ℤ → ℤ → Result Text

-- `CrossReference`
pub record CrossReference : Type 0 where
  pub find_references : Place → Bool → Result ReferenceResult
  pub call_hierarchy : Place → Text → Result CallHierarchyResult
  pub implementations : Place → Result ImplementationResult
  pub type_hierarchy : Place → Text → Result TypeHierarchyResult

-- encoding/json, for each type of an answer
pub record Codec : Type 0 where
  pub record_json : SymbolRecord → Result Text
  pub records_json : List SymbolRecord → Result Text
  pub references_json : ReferenceResult → Result Text
  pub calls_json : CallHierarchyResult → Result Text
  pub implementations_json : ImplementationResult → Result Text
  pub types_json : TypeHierarchyResult → Result Text

-- `Deps`
pub record Deps (S : Type 0) : Type 0 where
  pub cache : Cache S
  pub scanner : LiveScanner S
  pub matrix : Matrix
  pub live_scan : Bool
  pub json : Codec

-- `renderJSON`
unfoldable pub render_json : Result Text → ToolResult
render_json (ok encoded) = text_result encoded
render_json (err e) = error_from (txt "failed to serialise the cached record") e

-- `renderCompactJSON`
unfoldable pub render_compact_json : Result Text → ToolResult
render_compact_json (ok encoded) = text_result encoded
render_compact_json (err e) = error_from (txt "failed to serialise the cross-reference result") e

-- The collaborators that `run` of cmd/main.go hands in: the store, the indexer and the service.
abbrev pub store_cache : (db : Backend) → Cache db.State
store_cache db = record { lookup = lookup db; stats = stats db }

abbrev pub indexer_scanner :
    (db : Backend) → Indexer → (Text → Option Error) → (Text → Node) → LiveScanner db.State
indexer_scanner db ix ctx tree = record {
  search_live = search_live db ix ctx tree;
  list_repos = list_repos ix;
  read_snippet = read_snippet ix;
}

abbrev pub service_reference : Service → Provider → Bool → CrossReference
service_reference s provider alive = record {
  find_references = find_references s provider alive;
  call_hierarchy = call_hierarchy s provider alive;
  implementations = implementations s provider alive;
  type_hierarchy = type_hierarchy s provider alive;
}
