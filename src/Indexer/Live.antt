-- ===== src/Indexer/Live.antt =====
-- internal/ast/indexer/indexer.go: `SearchLive` and `matchesName`.
pub mod Laws
use dotfs_mcp_server.Base.{
  ℕ, Bool, true, false, not, ◌&&◌, ◌||◌, List, [], ◌∷◌, ◌++◌, Text, ◌==◌, bytes_eq, leb, length,
  contains, is_empty, Option, none, some, Result, ok, err, Error, if◌then◌else◌,
}
use dotfs_mcp_server.Ast.{SymbolType, SymbolRecord}
use dotfs_mcp_server.Parser.{Symbol}
use dotfs_mcp_server.Utils.Safe.{safe_repo_path}
use dotfs_mcp_server.Store.Backend.{Backend}
use dotfs_mcp_server.Store.Put.{put_symbol}
use dotfs_mcp_server.Indexer.Options.{Indexer, to_record, list_repos}
use dotfs_mcp_server.Indexer.Files.{
  Parsed, filtered, parsed, parse_failed, parse_file, Node, Walk, collect_files, ParseResult,
}

-- `maxLiveMatches`
abbrev pub max_live_matches : ℕ
max_live_matches = 25

-- `matchesName`
unfoldable pub matches_name : Symbol → Text → Bool
matches_name sym target = sym.name == target || contains sym.aliases target

-- How a loop ends: it may go on, the answer is full, or an error ends the search. With
-- `dropped` the matches are not returned.
pub data Flow : Type 0 where
  next full : Flow
  stopped dropped : Error → Flow

module _ (db : Backend) where
  pub record Search : Type 0 where
    pub matches : List SymbolRecord
    pub state : db.State

  -- Is the symbol asked for?
  unfoldable pub is_wanted : Text → List SymbolType → Symbol → Bool
  unfolding matches_name
  is_wanted target types sym =
      matches_name sym target && (is_empty types || contains types sym.symbol_type)

  -- The limit is looked at behind every match.
  abbrev pub limited : Search → Flow × Search
  limited w = if leb max_live_matches (length w.matches) then (full, w) else (next, w)

  -- One symbol; an error of `PutSymbol` is only logged.
  unfoldable pub search_symbol :
      Text → List SymbolType → Text → Text → Symbol → Search → Flow × Search
  search_symbol target types repo path sym w =
      let rec = to_record repo path sym in
      if not (is_wanted target types sym)
      then (next, w)
      else limited
          (record { matches = w.matches ++ rec ∷ []; state = (put_symbol db rec w.state).1 })

  abbrev pub and_then : (Search → Flow × Search) → Flow × Search → Flow × Search
  and_then f (next, w) = f w
  and_then f (full, w) = (full, w)
  and_then f (stopped e, w) = (stopped e, w)
  and_then f (dropped e, w) = (dropped e, w)

  unfoldable pub search_symbols :
      Text → List SymbolType → Text → Text → List Symbol → Search → Flow × Search
  search_symbols target types repo path [] w = (next, w)
  search_symbols target types repo path (sym ∷ syms) w =
      and_then (λ v. search_symbols target types repo path syms v)
        (search_symbol target types repo path sym w)

  abbrev pub search_parsed : Text → List SymbolType → Text → Text → Parsed → Search → Flow × Search
  search_parsed target types repo path filtered w = (next, w)
  search_parsed target types repo path (parse_failed e) w = (next, w)
  search_parsed target types repo path (parsed symbols) w =
      search_symbols target types repo path symbols w

  module _ (ix : Indexer) (ctx : Text → Option Error) (tree : Text → Node) where
    unfoldable pub search_file :
        Text → List SymbolType → Text → Text → Text → Search → Flow × Search
    search_file target types repo repo_path path w =
        let res = parse_file ix repo_path path target in
        elim (ctx path) [
          | some e ↦ (stopped e, w)
          | none ↦ search_parsed target types repo res.rel_path res.outcome w
        ]

    unfoldable pub search_files :
        Text → List SymbolType → Text → Text → List Text → Search → Flow × Search
    search_files target types repo repo_path [] w = (next, w)
    search_files target types repo repo_path (path ∷ paths) w =
        and_then (λ v. search_files target types repo repo_path paths v)
          (search_file target types repo repo_path path w)

    abbrev pub search_walk :
        Text → List SymbolType → Text → Text → Result Walk → Search → Flow × Search
    search_walk target types repo repo_path (err e) w = (dropped e, w)
    search_walk target types repo repo_path (ok walk) w =
        search_files target types repo repo_path walk.files w

    abbrev pub search_path : Text → List SymbolType → Text → Result Text → Search → Flow × Search
    search_path target types repo (err e) w = (next, w)
    search_path target types repo (ok repo_path) w =
        search_walk target types repo repo_path (collect_files ix ctx repo_path (tree repo_path)) w

    unfoldable pub search_repos : Text → List SymbolType → List Text → Search → Flow × Search
    search_repos target types [] w = (next, w)
    search_repos target types (repo ∷ repos) w =
        and_then (λ v. search_repos target types repos v)
          (search_path target types repo (safe_repo_path ix.fs ix.opts.workspace_root repo) w)

    abbrev pub answer : Flow × Search → (List SymbolRecord × Option Error) × db.State
    answer (next, w) = ((w.matches, none), w.state)
    answer (full, w) = ((w.matches, none), w.state)
    answer (stopped e, w) = ((w.matches, some e), w.state)
    answer (dropped e, w) = (([], some e), w.state)

    abbrev pub search_listed :
        Text
        → List SymbolType
        → Result (List Text)
        → db.State
        → (List SymbolRecord × Option Error) × db.State
    search_listed target types (err e) s = (([], some e), s)
    search_listed target types (ok repos) s =
        answer (search_repos target types repos (record { matches = []; state = s }))

    -- `SearchLive`
    unfoldable pub search_live :
        Text → List SymbolType → db.State → (List SymbolRecord × Option Error) × db.State
    search_live target types s = search_listed target types (list_repos ix) s
