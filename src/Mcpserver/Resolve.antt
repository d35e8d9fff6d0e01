-- ===== src/Mcpserver/Resolve.antt =====
-- internal/mcpserver/server.go: `resolve`, the cache first and then the live search.
pub mod Laws
use dotfs_mcp_server.Base.{
  ℕ, Bool, true, false, Option, none, some, List, [], ◌∷◌, Text, ◌==◌, bytes_eq, pos, keep,
  is_empty, Result, ok, err, Error, if◌then◌else◌,
}
use dotfs_mcp_server.Ast.{SymbolType, SymbolRecord}
use dotfs_mcp_server.Mcpserver.{Deps}

-- `maxResults`
abbrev pub max_results : ℕ
max_results = 25

-- `query`
pub record Query : Type 0 where
  pub name : Text
  pub repo : Text
  pub types : List SymbolType
  pub exact : Bool

-- The repository filter on what the live search found.
unfoldable pub in_repo : Text → List SymbolRecord → List SymbolRecord
in_repo repo live = if is_empty repo then live else keep (λ rec. rec.repo_name == repo) live

module _ {S : Type 0} (d : Deps S) where
  unfoldable pub after_search :
      Query → (List SymbolRecord × Option Error) × S → Result (List SymbolRecord) × S
  unfolding in_repo
  after_search q ((live, some e), s) = (err e, s)
  after_search q ((live, none), s) = (ok (in_repo q.repo live), s)

  -- What follows the lookup. The time limit of the search is part of the scanner's context.
  unfoldable pub after_lookup :
      Query → Result (List SymbolRecord) → S → Result (List SymbolRecord) × S
  unfolding after_search
  after_lookup q (err e) s = (err e, s)
  after_lookup q (ok (rec ∷ records)) s = (ok (rec ∷ records), s)
  after_lookup q (ok []) s =
      if d.live_scan then after_search q (d.scanner.search_live q.name q.types s) else (ok [], s)

  -- `resolve`
  unfoldable pub resolve : Query → S → Result (List SymbolRecord) × S
  unfolding after_lookup
  resolve q s =
      after_lookup q
        (d.cache.lookup q.name
          (record { repo = q.repo; types = q.types; exact_only = q.exact; limit = pos max_results })
          s)
        s
