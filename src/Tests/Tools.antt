-- ===== src/Tests/Tools.antt =====
-- Runs of internal/mcpserver/server.go over a store in memory and a host with one repository.
use dotfs_mcp_server.Base.{
  ◌≡◌, refl, true, false, Option, none, some, [], ◌∷◌, ◌++◌, Text, txt, ◌==◌, bytes_eq, nat_eq,
  insert, lookup, trim_space, occurs, Any, pos, ok, Error, sentinel, wrap, daemon_exited, arith,
  if◌then◌else◌,
}
use dotfs_mcp_server.Ast.{blank}
use dotfs_mcp_server.Ast.Fingerprint.{fingerprint}
use dotfs_mcp_server.Capabilities.{new_matrix, Matrix}
use dotfs_mcp_server.Store.Lookup
use dotfs_mcp_server.Store.Backend.Memory.{memory, memory-IsLawful, Cells, keys_under}
use dotfs_mcp_server.Store.Put.{write_indexes}
use dotfs_mcp_server.Store.Keys.{index_keys, primary_key}
use dotfs_mcp_server.Mcpserver.{
  Request, Codec, CrossReference, Deps, render_json, store_cache, indexer_scanner,
  service_reference,
}
use dotfs_mcp_server.Mcpserver.Arguments.{got}
use dotfs_mcp_server.Mcpserver.Arguments.Laws.{IsError}
use dotfs_mcp_server.Mcpserver.Resolve.{Query}
use dotfs_mcp_server.Mcpserver.Resolve.Laws.{wired, filter_of}
use dotfs_mcp_server.Mcpserver.Advice.{xref_error}
use dotfs_mcp_server.Mcpserver.Advice.Laws.{guidance, xref_error-guidance}
use dotfs_mcp_server.Mcpserver.Queries.{lookup_symbol_query}
use dotfs_mcp_server.Mcpserver.Retrieval.{handle_lookup_symbol}
use dotfs_mcp_server.Mcpserver.Retrieval.Laws.{plain_query, handle_lookup_symbol-put}
use dotfs_mcp_server.Mcpserver.Relations.{
  handle_find_references, handle_call_hierarchy, handle_implementations, handle_type_hierarchy,
}
use dotfs_mcp_server.Mcpserver.Relations.Laws.{
  ReferencesAnswer, CallsAnswer, ImplementationsAnswer, HierarchyAnswer, relational_tools-IsJsonOf,
}
use dotfs_mcp_server.Mcpserver.Tools.{
  string, Argument, Collaborators, new_server, retrieval_tools, relation_tools, lookup_symbol_tool,
}
use dotfs_mcp_server.Mcpserver.Tools.Laws.{new_server-Refuses}
use dotfs_mcp_server.Tests.Data.{add_record}
use dotfs_mcp_server.Tests.Cache.{stored, stored_run, add_record-IsUtf8}
use dotfs_mcp_server.Tests.Workspace.{indexer, tree_at}
use dotfs_mcp_server.Tests.Queries.{service, provider, place}

abbrev codec : Codec
codec = record {
  record_json = λ r. ok (txt "{}");
  records_json = λ rs. ok (txt "[]");
  references_json = λ r. ok (txt "{}");
  calls_json = λ r. ok (txt "{}");
  implementations_json = λ r. ok (txt "{}");
  types_json = λ r. ok (txt "{}");
}

abbrev matrix : Matrix
matrix = new_matrix []

abbrev in_demo : Query
in_demo = record { name = txt "add"; repo = txt "demo"; types = []; exact = false }

abbrev never_done : Text → Option Error
never_done path = none

abbrev deps : Deps Cells
deps = wired memory indexer never_done tree_at matrix codec true

abbrev crashed : Error
crashed = wrap (txt "lsp") (wrap (txt "call") (sentinel daemon_exited))

xref_error-guidance_example :
    xref_error (txt "find_references") place crashed
    ≡ guidance (txt "find_references") place crashed (some daemon_exited)
xref_error-guidance_example = xref_error-guidance (txt "find_references") place crashed

abbrev text_of : Text → Option Text
text_of key =
    if key == txt "repo_name"
    then some (txt "demo")
    else if key == txt "file_path"
    then some (txt "a.c")
    else if key == txt "name"
    then some (txt "plus")
    else none

-- A request that holds a name, a repository, a file and lines.
abbrev request : Request
request = record {
  require_string = text_of;
  get_string = λ key fallback. fallback;
  require_int = λ key. some (pos 1);
  get_bool = λ key fallback. fallback;
}

abbrev engine : CrossReference
engine = service_reference service provider true

relational_tools-IsJsonOf_example :
    ReferencesAnswer service provider true codec request
      (handle_find_references engine codec request)
    × CallsAnswer service provider true codec request (handle_call_hierarchy engine codec request)
    × ImplementationsAnswer service provider true codec request
        (handle_implementations engine codec request)
    × HierarchyAnswer service provider true codec request
        (handle_type_hierarchy engine codec request)
relational_tools-IsJsonOf_example = relational_tools-IsJsonOf service provider true codec request

asked_plus : lookup_symbol_query request ≡ got (plain_query (txt "plus"))
unfolding lookup_symbol_query bytes_eq
asked_plus = refl

found_plus :
    Lookup.lookup memory (txt "plus") (filter_of (plain_query (txt "plus"))) stored
    ≡ ok (add_record ∷ [])
unfolding Lookup.lookup keys_under write_indexes index_keys bytes_eq primary_key insert lookup
found_plus = refl

handle_lookup_symbol-put_example :
    (handle_lookup_symbol deps request stored
      ≡ (render_json (codec.records_json (add_record ∷ [])), stored))
    × Any
        (λ r. fingerprint memory.digest r ≡ fingerprint memory.digest add_record)
        (add_record ∷ [])
unfolding trim_space bytes_eq occurs blank
handle_lookup_symbol-put_example =
    handle_lookup_symbol-put memory indexer never_done tree_at matrix codec true memory-IsLawful
      add_record [] stored (primary_key add_record) true (txt "plus") request (add_record ∷ [])
      add_record-IsUtf8 stored_run refl refl refl refl asked_plus found_plus (omega arith)

abbrev collaborators : Collaborators Cells
collaborators = record {
  cache = some (store_cache memory);
  scanner = some (indexer_scanner memory indexer never_done tree_at);
  matrix = some matrix;
  has_log = true;
  live_scan = true;
  engine = some (service_reference service provider true);
  json = codec;
}

-- A request with no arguments at all
abbrev bare : Request
bare = record request { require_string = λ key. none; require_int = λ key. none }

made :
    new_server collaborators
    ≡ ok (
        retrieval_tools deps
        ++ relation_tools codec (some (service_reference service provider true)))
unfolding new_server
made = refl

abbrev name_argument : Argument
name_argument = record { key = txt "name"; kind = string []; required = true }

new_server-Refuses_example :
    IsError (handle_lookup_symbol deps bare stored).0
    × ((handle_lookup_symbol deps bare stored).1 ≡ stored)
unfolding lookup_symbol_tool
new_server-Refuses_example =
    new_server-Refuses collaborators
      (retrieval_tools deps
        ++ relation_tools codec (some (service_reference service provider true)))
      1 0 lookup_symbol_tool (handle_lookup_symbol deps) name_argument bare stored made refl refl
      (refl, refl)
