-- ===== src/Indexer/Cycle.antt =====
-- internal/ast/indexer/indexer.go: `IndexRepo` and `IndexAll`. The workers parse the files at the
-- same time; the one writer takes their results in the order in which they arrive.
pub mod Laws
pub mod Others
pub mod Exact
use dotfs_mcp_server.Base.{
  ℕ, suc, ◌+◌, Bool, true, false, List, [], ◌∷◌, map, Text, length, Option, none, some, Dict,
  lookup, insert, bytes_eq, Result, ok, err, Error, ◌>>=◌, if◌then◌else◌,
}
use dotfs_mcp_server.Ast.{SymbolType, SymbolRecord}
use dotfs_mcp_server.Parser.{Symbol}
use dotfs_mcp_server.Utils.Safe.{safe_repo_path}
use dotfs_mcp_server.Store.Backend.{Backend}
use dotfs_mcp_server.Store.Put.{put_symbol}
use dotfs_mcp_server.Store.Prune.{prune_repo}
use dotfs_mcp_server.Indexer.Options.{Indexer, to_record, list_repos}
use dotfs_mcp_server.Indexer.Files.{
  ParseResult, Parsed, filtered, parsed, parse_failed, parse_file, Node, Walk, collect_files,
}

-- `Summary`, without the duration
pub record Summary : Type 0 where
  pub repo : Text
  pub files_scanned : ℕ
  pub files_filtered : ℕ
  pub files_parsed : ℕ
  pub symbols_found : ℕ
  pub symbol_types : Dict Text ℕ
  pub records_written : ℕ
  pub records_pruned : ℕ
  pub parse_errors : ℕ

abbrev pub no_summary : Summary
no_summary = record {
  repo = [];
  files_scanned = 0;
  files_filtered = 0;
  files_parsed = 0;
  symbols_found = 0;
  symbol_types = [];
  records_written = 0;
  records_pruned = 0;
  parse_errors = 0;
}

abbrev pub started : Text → ℕ → Summary
started repo scanned = record no_summary { repo = repo; files_scanned = scanned }

abbrev count_error : Summary → Summary
count_error u = record u { parse_errors = suc u.parse_errors }

abbrev count_filtered : Summary → Summary
count_filtered u = record u { files_filtered = suc u.files_filtered }

abbrev count_parsed : ℕ → Summary → Summary
count_parsed n u = record u {
  files_parsed = suc u.files_parsed;
  symbols_found = u.symbols_found + n;
}

abbrev or_zero : Option ℕ → ℕ
or_zero none = 0
or_zero (some n) = n

abbrev count_symbol : SymbolType → Bool → Summary → Summary
count_symbol t written u = record u {
  symbol_types = insert t (suc (or_zero (lookup t u.symbol_types))) u.symbol_types;
  records_written = if written then suc u.records_written else u.records_written;
}

module _ (db : Backend) where
  -- The writer: the counts, the live keys, and the database.
  pub record Writer : Type 0 where
    pub summary : Summary
    pub live : List Text
    pub state : db.State

  -- What follows on `PutSymbol`
  abbrev pub after_put : SymbolType → Writer → Result (Text × Bool) × db.State → Writer
  after_put t w (err e, s) = record { summary = count_error w.summary; live = w.live; state = s }
  after_put t w (ok (key, written), s) = record {
    summary = count_symbol t written w.summary;
    live = key ∷ w.live;
    state = s;
  }

  unfoldable pub write_symbols : Text → Text → List Symbol → Writer → Writer
  write_symbols repo path [] w = w
  write_symbols repo path (sym ∷ syms) w =
      write_symbols repo path syms
        (after_put sym.symbol_type w (put_symbol db (to_record repo path sym) w.state))

  -- One result of a worker, the path first.
  unfoldable pub write_outcome : Text → Text → Parsed → Writer → Writer
  write_outcome repo path (parse_failed e) w = record {
    summary = count_error w.summary;
    live = w.live;
    state = w.state;
  }
  write_outcome repo path filtered w = record {
    summary = count_filtered w.summary;
    live = w.live;
    state = w.state;
  }
  write_outcome repo path (parsed symbols) w =
      write_symbols repo path symbols (record {
        summary = count_parsed (length symbols) w.summary;
        live = w.live;
        state = w.state;
      })

  unfoldable pub write_results : Text → List ParseResult → Writer → Writer
  write_results repo [] w = w
  write_results repo (r ∷ rs) w = write_results repo rs (write_outcome repo r.rel_path r.outcome w)

  abbrev pub after_prune :
      Summary → (ℕ × Option Error) × db.State → (Summary × Option Error) × db.State
  after_prune u ((pruned, none), s) = ((record u { records_pruned = pruned }, none), s)
  after_prune u ((pruned, some e), s) = ((u, some e), s)

  -- Behind the loop: a cycle that was cancelled prunes nothing.
  unfoldable pub close_cycle : Text → Option Error → Writer → (Summary × Option Error) × db.State
  close_cycle repo (some e) w = ((w.summary, some e), w.state)
  close_cycle repo none w = after_prune w.summary (prune_repo db repo w.live w.state)

  abbrev pub run_cycle :
      Indexer
      → (List ParseResult → List ParseResult)
      → Text
      → Option Error
      → Text
      → db.State
      → Result Walk
      → (Summary × Option Error) × db.State
  run_cycle ix arrive repo ended repo_path s (err e) = ((no_summary, some e), s)
  run_cycle ix arrive repo ended repo_path s (ok w) = close_cycle repo ended (
      write_results repo (arrive (map (λ path. parse_file ix repo_path path []) w.files))
        (record { summary = started repo w.scanned; live = []; state = s }))

  -- `IndexRepo`. The tree is what lies at the repository's path, `arrive` gives the results in the
  -- order of their arrival, and `ended` is `ctx.Err()` behind the loop.
  unfoldable pub index_repo :
      Indexer
      → (Text → Option Error)
      → (Text → Node)
      → (List ParseResult → List ParseResult)
      → Option Error
      → Text
      → db.State
      → (Summary × Option Error) × db.State
  index_repo ix ctx tree arrive ended repo s =
      elim (safe_repo_path ix.fs ix.opts.workspace_root repo) [
        | err e ↦ ((no_summary, some e), s)
        | ok repo_path ↦
            run_cycle ix arrive repo ended repo_path s
              (collect_files ix ctx repo_path (tree repo_path))
      ]

  -- A repository's cycle, and `ctx.Err()` before it.
  abbrev Cycles : Type 0
  Cycles = Text → Option Error × (db.State → (Summary × Option Error) × db.State)

  abbrev keep_summary : Summary × Option Error → List Summary → List Summary
  keep_summary (u, none) us = u ∷ us
  keep_summary (u, some e) us = us

  abbrev cons_cycle :
      Summary × Option Error
      → (List Summary × Option Error) × db.State
      → (List Summary × Option Error) × db.State
  cons_cycle r ((us, e), s) = ((keep_summary r us, e), s)

  -- The loop of `IndexAll`: a repository that fails is passed over.
  unfoldable pub index_each :
      Cycles → List Text → db.State → (List Summary × Option Error) × db.State
  index_each cycle [] s = (([], none), s)
  index_each cycle (repo ∷ repos) s =
      let one = (cycle repo).1 s in
      let rest = index_each cycle repos one.1 in
      elim (cycle repo).0 [ some e ↦ (([], some e), s) | none ↦ cons_cycle one.0 rest ]

  -- `IndexAll`
  unfoldable pub index_all : Indexer → Cycles → db.State → (List Summary × Option Error) × db.State
  index_all ix cycle s = elim (list_repos ix) [
    | err e ↦ (([], some e), s)
    | ok repos ↦ index_each cycle repos s
  ]
