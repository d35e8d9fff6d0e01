-- ===== src/Indexer/Live/Laws.antt =====
-- internal/ast/indexer/indexer.go: what `SearchLive` answers.
use dotfs_mcp_server.Base.{
  ◌≡◌, refl, ◌≤◌, ◌<◌, true, ◌||◌, List, [], ◌∷◌, ◌++◌, Text, ◌==◌, bytes_eq, leb, length, contains,
  is_empty, Option, Result, ok, err, Error, arith, All, All-append, length-append, Bool-cases, inl,
  inr, Option-cases, Result-cases,
}
use dotfs_mcp_server.Ast.{SymbolType, SymbolRecord}
use dotfs_mcp_server.Parser.{Symbol}
use dotfs_mcp_server.Utils.Safe.{safe_repo_path}
use dotfs_mcp_server.Store.Backend.{Backend}
use dotfs_mcp_server.Indexer.Options.{Indexer, to_record, list_repos}
use dotfs_mcp_server.Indexer.Files.{Parsed, filtered, parsed, parse_failed, Node, collect_files}
use dotfs_mcp_server.Indexer.Live.{
  Flow, next, full, stopped, dropped, Search, matches_name, is_wanted, search_symbol,
  search_symbols, search_parsed, search_file, search_files, search_walk, search_path, search_repos,
  search_listed, search_live, and_then, answer, limited,
}

-- A record that was asked for.
abbrev pub Wanted : Text → List SymbolType → SymbolRecord → Type 0
Wanted target types r =
    ((r.name == target || contains r.aliases target) ≡ true)
    × ((is_empty types || contains types r.symbol_type) ≡ true)

module _ (db : Backend) (target : Text) (types : List SymbolType) where
  -- Everything found is wanted, and the answer is full at its limit at the latest.
  abbrev IsGood : Flow × Search db → Type 0
  IsGood (next, w) = All (Wanted target types) w.matches × (length w.matches < 25)
  IsGood (_, w) = All (Wanted target types) w.matches × (length w.matches ≤ 25)

  abbrev Room : Search db → Type 0
  Room w = All (Wanted target types) w.matches × (length w.matches < 25)

  IsGood-step :
      (f : Search db → Flow × Search db) (r : Flow × Search db)
      → IsGood r
      → ((w : Search db) → Room w → IsGood (f w))
      → IsGood (and_then db f r)
  IsGood-step f (next, w) h k = k w h
  IsGood-step f (full, w) h k = h
  IsGood-step f (stopped e, w) h k = h
  IsGood-step f (dropped e, w) h k = h

  limited-IsGood :
      (ms : List SymbolRecord) (r : SymbolRecord) (w : Search db)
      → w.matches ≡ ms ++ r ∷ []
      → All (Wanted target types) w.matches
      → length ms < 25
      → IsGood (limited db w)
  limited-IsGood ms r w e all room =
      let grown = length-append ms (r ∷ []) in
      elim (Bool-cases (leb 25 (length w.matches))) [
        | inl is ↦ rw (is, limited) (all, rw e (omega (arith, grown)))
        | inr is ↦ rw (is, limited) (all, ground (arith, is))
      ]

  Wanted-to_record :
      (repo path : Text) (sym : Symbol)
      → is_wanted db target types sym ≡ true
      → Wanted target types (to_record repo path sym)
  unfolding is_wanted matches_name to_record
  Wanted-to_record repo path sym h = ground (arith, h)

  search_symbol-IsGood :
      (repo path : Text) (sym : Symbol) (w : Search db)
      → Room w
      → IsGood (search_symbol db target types repo path sym w)
  unfolding search_symbol
  search_symbol-IsGood repo path sym w (all, room) =
      elim (Bool-cases (is_wanted db target types sym)) [
        | inr other ↦ rw (other, search_symbol) (all, room)
        | inl is ↦
            rw (is, search_symbol)
              (limited-IsGood w.matches (to_record repo path sym) _ refl
                (All-append (Wanted target types) w.matches (to_record repo path sym ∷ []) all
                  (Wanted-to_record repo path sym is, tt))
                room)
      ]

  search_symbols-IsGood :
      (repo path : Text) (syms : List Symbol) (w : Search db)
      → Room w
      → IsGood (search_symbols db target types repo path syms w)
  unfolding search_symbols
  search_symbols-IsGood repo path [] w h = h
  search_symbols-IsGood repo path (sym ∷ syms) w h =
      IsGood-step _ (search_symbol db target types repo path sym w)
        (search_symbol-IsGood repo path sym w h) (search_symbols-IsGood repo path syms)

  search_parsed-IsGood :
      (repo path : Text) (o : Parsed) (w : Search db)
      → Room w
      → IsGood (search_parsed db target types repo path o w)
  search_parsed-IsGood repo path filtered w h = h
  search_parsed-IsGood repo path (parse_failed e) w h = h
  search_parsed-IsGood repo path (parsed symbols) w h = search_symbols-IsGood repo path symbols w h

  weaken : (f : Flow) (w : Search db) → Room w → IsGood (f, w)
  weaken next w h = h
  weaken full w (all, room) = (all, omega arith)
  weaken (stopped e) w (all, room) = (all, omega arith)
  weaken (dropped e) w (all, room) = (all, omega arith)

  module _ (ix : Indexer) (ctx : Text → Option Error) (tree : Text → Node) where
    search_file-IsGood :
        (repo repo_path path : Text) (w : Search db)
        → Room w
        → IsGood (search_file db ix ctx tree target types repo repo_path path w)
    unfolding search_file
    search_file-IsGood repo repo_path path w h = elim (Option-cases (ctx path)) [
      | inr (e, is) ↦ rw (is, search_file) (weaken (stopped e) w h)
      | inl live ↦ rw (live, search_file) (search_parsed-IsGood repo _ _ w h)
    ]

    search_files-IsGood :
        (repo repo_path : Text) (paths : List Text) (w : Search db)
        → Room w
        → IsGood (search_files db ix ctx tree target types repo repo_path paths w)
    unfolding search_files
    search_files-IsGood repo repo_path [] w h = h
    search_files-IsGood repo repo_path (path ∷ paths) w h =
        IsGood-step _ (search_file db ix ctx tree target types repo repo_path path w)
          (search_file-IsGood repo repo_path path w h) (search_files-IsGood repo repo_path paths)

    search_path-IsGood :
        (repo : Text) (r : Result Text) (w : Search db)
        → Room w
        → IsGood (search_path db ix ctx tree target types repo r w)
    search_path-IsGood repo (err e) w h = h
    search_path-IsGood repo (ok path) w h =
        elim (Result-cases (collect_files ix ctx path (tree path))) [
          | inl (e, is) ↦ rw (is, search_walk) (weaken (dropped e) w h)
          | inr (walk, is) ↦ rw (is, search_walk) (search_files-IsGood repo path walk.files w h)
        ]

    search_repos-IsGood :
        (repos : List Text) (w : Search db)
        → Room w
        → IsGood (search_repos db ix ctx tree target types repos w)
    unfolding search_repos
    search_repos-IsGood [] w h = h
    search_repos-IsGood (repo ∷ repos) w h =
        let path = safe_repo_path ix.fs ix.opts.workspace_root repo in
        IsGood-step _ (search_path db ix ctx tree target types repo path w)
          (search_path-IsGood repo path w h) (search_repos-IsGood repos)

    abbrev IsAnswer : (List SymbolRecord × Option Error) × db.State → Type 0
    IsAnswer ((found, e), s) = All (Wanted target types) found × (length found ≤ 25)

    answer-IsAnswer : (r : Flow × Search db) → IsGood r → IsAnswer (answer db ix ctx tree r)
    answer-IsAnswer (next, w) (all, room) = (all, omega arith)
    answer-IsAnswer (full, w) h = h
    answer-IsAnswer (stopped e, w) h = h
    answer-IsAnswer (dropped e, w) h = (tt, omega arith)

    search_listed-IsAnswer :
        (listed : Result (List Text)) (s : db.State)
        → IsAnswer (search_listed db ix ctx tree target types listed s)
    search_listed-IsAnswer (err e) s = (tt, omega arith)
    search_listed-IsAnswer (ok repos) s =
        answer-IsAnswer _ (search_repos-IsGood repos _ (tt, omega arith))

    -- `SearchLive` answers at most 25 records, and each has the target as its name or an alias and
    -- one of the wanted types, however the search ends.
    pub search_live-Wanted :
        (s : db.State)
        → All (Wanted target types) (search_live db ix ctx tree target types s).0.0
          × (length (search_live db ix ctx tree target types s).0.0 ≤ 25)
    unfolding search_live
    search_live-Wanted s = search_listed-IsAnswer (list_repos ix) s
