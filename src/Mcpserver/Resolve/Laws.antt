-- ===== src/Mcpserver/Resolve/Laws.antt =====
-- internal/mcpserver/server.go: what `resolve` answers over the store and the indexer.
use dotfs_mcp_server.Base.{
  ◌≡◌, ◌≤◌, ◌↔◌, Any, true, Bool, ◌⊎◌, Option, none, List, [], Text, ◌==◌, bytes_eq, pos, length,
  All, ok, Error,
}
use dotfs_mcp_server.Ast.{SymbolRecord}
use dotfs_mcp_server.Store.Backend.{Backend}
use dotfs_mcp_server.Store.Lookup.{Filter, lookup}
use dotfs_mcp_server.Store.Lookup.Laws.{IsHit}
use dotfs_mcp_server.Indexer.Options.{Indexer}
use dotfs_mcp_server.Indexer.Files.{Node}
use dotfs_mcp_server.Indexer.Live.{search_live}
use dotfs_mcp_server.Indexer.Live.Laws.{Wanted}
use dotfs_mcp_server.Capabilities.{Matrix}
use dotfs_mcp_server.Mcpserver.{Deps, Codec, store_cache, indexer_scanner}
use dotfs_mcp_server.Mcpserver.Resolve.{max_results, Query}

-- The filter that a query hands to `Lookup`
abbrev pub filter_of : Query → Filter
filter_of q = record {
  repo = q.repo;
  types = q.types;
  exact_only = q.exact;
  limit = pos max_results;
}

-- The collaborators of a running server
abbrev pub wired :
    (db : Backend)
    → Indexer
    → (Text → Option Error)
    → (Text → Node)
    → Matrix
    → Codec
    → Bool
    → Deps db.State
wired db ix ctx tree matrix json live = record {
  cache = store_cache db;
  scanner = indexer_scanner db ix ctx tree;
  matrix = matrix;
  live_scan = live;
  json = json;
}

-- In the repository that the query asks for, if it asks for one
abbrev pub InRepo : Text → SymbolRecord → Type 0
InRepo repo r = (repo ≡ []) ⊎ (r.repo_name ≡ repo)

abbrev pub Listed : List SymbolRecord → SymbolRecord → Type 0
Listed xs r = Any (λ x. x ≡ r) xs

-- Where an answer comes from. Either it is what `Lookup` gave for the name of the query, its
-- repository, its kinds and its exact flag, and each record is a hit of that lookup. Or the lookup
-- gave nothing, and the live search, for the name and the kinds of the query, ended without an
-- error: the answer has just those of its records that are in the repository of the query, and each
-- has the name and a kind that the query asks for.
pub data Origin (db : Backend) (q : Query) (s : db.State) (live : Bool)
    (search : List SymbolRecord × Option Error) (rs : List SymbolRecord) : Type 0 where
  cached :
      lookup db q.name (filter_of q) s ≡ ok rs
      → All (IsHit db q.repo s) rs
      → Origin db q s live search rs
  searched :
      lookup db q.name (filter_of q) s ≡ ok []
      → live ≡ true
      → search.1 ≡ none
      → ((r : SymbolRecord) → Listed rs r ↔ (Listed search.0 r × InRepo q.repo r))
      → All (Wanted q.name q.types) rs
      → Origin db q s live search rs

-- An answer of `resolve`
abbrev pub IsResolved :
    (db : Backend)
    → Query
    → db.State
    → Bool
    → List SymbolRecord × Option Error
    → List SymbolRecord
    → Type 0
IsResolved db q s live search rs =
    (length rs ≤ 25) × All (λ r. InRepo q.repo r) rs × Origin db q s live search rs

module _ (repo : Text) where
  mine : SymbolRecord → Bool
  mine r = r.repo_name == repo

module _ (db : Backend) (q : Query) (s : db.State) where
  module _ (d : Deps db.State) where
    abbrev search_of : (List SymbolRecord × Option Error) × db.State
    search_of = d.scanner.search_live q.name q.types s
