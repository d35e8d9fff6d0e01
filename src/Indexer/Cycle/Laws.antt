-- ===== src/Indexer/Cycle/Laws.antt =====
-- internal/ast/indexer/indexer.go: what an indexing cycle leaves in the cache.
use dotfs_mcp_server.Base.{
  ℕ, ◌≡◌, refl, ap, sym, ◌∙◌, Bool, true, false, ◌||◌, List, [], ◌∷◌, ◌++◌, map, Text, Option, none,
  some, has_prefix, contains, contains-append, ◌==◌, bytes_eq, Result, ok, err, Error, Result-cases,
  inl, inr, arith, Bool-cases,
}
use dotfs_mcp_server.Ast.{SymbolRecord}
use dotfs_mcp_server.Parser.{Symbol}
use dotfs_mcp_server.Utils.Safe.{safe_repo_path}
use dotfs_mcp_server.Store.Keys.{primary_key, repo_symbol_prefix}
use dotfs_mcp_server.Store.Backend.{Backend, IsLawful, missing}
use dotfs_mcp_server.Store.Put.{put_symbol}
use dotfs_mcp_server.Store.Put.Laws.{PutOutcome, put_symbol_outcome}
use dotfs_mcp_server.Store.Prune.{prune_repo}
use dotfs_mcp_server.Store.Prune.Laws.{prune_repo_removes}
use dotfs_mcp_server.Indexer.Options.{Indexer, to_record}
use dotfs_mcp_server.Indexer.Files.{
  ParseResult, Parsed, filtered, parsed, parse_failed, parse_file, Node, Walk, collect_files,
}
use dotfs_mcp_server.Indexer.Cycle.{
  Writer, after_put, write_symbols, write_outcome, write_results, close_cycle, after_prune,
  index_repo, run_cycle, started,
}

-- The primary keys of the symbols that a cycle's results hold.
unfoldable pub symbol_keys : Text → Text → List Symbol → List Text
symbol_keys repo path [] = []
symbol_keys repo path (s ∷ ss) = primary_key (to_record repo path s) ∷ symbol_keys repo path ss

abbrev pub keys_in : Text → Text → Parsed → List Text
keys_in repo path filtered = []
keys_in repo path (parsed symbols) = symbol_keys repo path symbols
keys_in repo path (parse_failed e) = []

unfoldable pub result_keys : Text → List ParseResult → List Text
result_keys repo [] = []
result_keys repo (r ∷ rs) = keys_in repo r.rel_path r.outcome ++ result_keys repo rs

-- The results that a cycle takes.
abbrev pub crawled_from :
    Indexer → (List ParseResult → List ParseResult) → Text → Result Walk → List ParseResult
crawled_from ix arrive path (err e) = []
crawled_from ix arrive path (ok w) = arrive (map (λ p. parse_file ix path p []) w.files)

unfoldable pub crawled :
    Indexer
    → (Text → Option Error)
    → (Text → Node)
    → (List ParseResult → List ParseResult)
    → Text
    → List ParseResult
crawled ix ctx tree arrive repo = elim (safe_repo_path ix.fs ix.opts.workspace_root repo) [
  | err e ↦ []
  | ok path ↦ crawled_from ix arrive path (collect_files ix ctx path (tree path))
]

module _ (db : Backend) (L : IsLawful db) where
  live-after_put :
      (rec : SymbolRecord) (t : _) (w : Writer db) (r : Result (Text × Bool) × db.State) (j : Text)
      → PutOutcome db L rec w.state r
      → contains (after_put db t w r).live j ≡ true
      → (contains w.live j || j == primary_key rec) ≡ true
  live-after_put rec t w (ok (k, b), s) j (valid, same, st) h = ground (arith, same, h)
  live-after_put rec t w (err e, s) j same h = ground (arith, h)

  live-write_symbols :
      (repo path : Text) (syms : List Symbol) (w : Writer db) (j : Text)
      → contains (write_symbols db repo path syms w).live j ≡ true
      → (contains w.live j || contains (symbol_keys repo path syms) j) ≡ true
  unfolding write_symbols symbol_keys
  live-write_symbols repo path [] w j h = ground (arith, h)
  live-write_symbols repo path (s ∷ ss) w j h =
      let rec = to_record repo path s in
      let next = after_put db s.symbol_type w (put_symbol db rec w.state) in
      let later = live-write_symbols repo path ss next j h in
      let now =
        live-after_put rec s.symbol_type w (put_symbol db rec w.state) j
          (put_symbol_outcome db L rec w.state) in
      elim (Bool-cases (contains next.live j)) [
        | inl here ↦ ground (arith, now here)
        | inr away ↦ ground (arith, away, later)
      ]

  live-write_outcome :
      (repo path : Text) (o : Parsed) (w : Writer db) (j : Text)
      → contains (write_outcome db repo path o w).live j ≡ true
      → (contains w.live j || contains (keys_in repo path o) j) ≡ true
  unfolding write_outcome
  live-write_outcome repo path filtered w j h = ground (arith, h)
  live-write_outcome repo path (parse_failed e) w j h = ground (arith, h)
  live-write_outcome repo path (parsed symbols) w j h = live-write_symbols repo path symbols _ j h

  live-write_results :
      (repo : Text) (rs : List ParseResult) (w : Writer db) (j : Text)
      → contains (write_results db repo rs w).live j ≡ true
      → (contains w.live j || contains (result_keys repo rs) j) ≡ true
  unfolding write_results result_keys
  live-write_results repo [] w j h = ground (arith, h)
  live-write_results repo (r ∷ rs) w j h =
      let next = write_outcome db repo r.rel_path r.outcome w in
      let later = live-write_results repo rs next j h in
      let mine = keys_in repo r.rel_path r.outcome in
      elim (Bool-cases (contains next.live j)) [
        | inl here ↦
            let now = live-write_outcome repo r.rel_path r.outcome w j here in
            ground (arith, now, contains-append mine (result_keys repo rs) j)
        | inr away ↦ ground (arith, away, later, contains-append mine (result_keys repo rs) j)
      ]

  pub after_prune-state :
      (u : _) (r : (ℕ × Option Error) × db.State)
      → ((after_prune db u r).0.1 ≡ r.0.1) × ((after_prune db u r).1 ≡ r.1)
  after_prune-state u ((n, none), s) = (refl, refl)
  after_prune-state u ((n, some e), s) = (refl, refl)

  close_cycle-gone :
      (repo : Text) (ended : Option Error) (w : Writer db) (j : Text)
      → (close_cycle db repo ended w).0.1 ≡ none
      → has_prefix (repo_symbol_prefix repo) j ≡ true
      → contains w.live j ≡ false
      → db.get (close_cycle db repo ended w).1 j ≡ missing
  unfolding close_cycle
  close_cycle-gone repo (some e) w j done mine out = cc
  close_cycle-gone repo none w j done mine out =
      let (same_error, same_state) =
        after_prune-state w.summary (prune_repo db repo w.live w.state) in
      ap (λ s. db.get s j) same_state
      ∙ prune_repo_removes db L repo w.live w.state j (sym same_error ∙ done) mine
      ∙ rw out

  run_cycle-gone :
      (ix : Indexer) (arrive : List ParseResult → List ParseResult) (repo : Text)
      (ended : Option Error) (path : Text) (s : db.State) (o : Result Walk) (j : Text)
      → (run_cycle db ix arrive repo ended path s o).0.1 ≡ none
      → has_prefix (repo_symbol_prefix repo) j ≡ true
      → contains (result_keys repo (crawled_from ix arrive path o)) j ≡ false
      → db.get (run_cycle db ix arrive repo ended path s o).1 j ≡ missing
  run_cycle-gone ix arrive repo ended path s (err e) j done mine out = cc
  run_cycle-gone ix arrive repo ended path s (ok walk) j done mine out =
      let results = crawled_from ix arrive path (ok walk) in
      let first : Writer db = record {
        summary = started repo walk.scanned;
        live = [];
        state = s;
      } in
      let w = write_results db repo results first in
      let listed = live-write_results repo results first j in
      close_cycle-gone repo ended w j done mine (elim (Bool-cases (contains w.live j)) [
        | inl here ↦ let clash : true ≡ false = sym (listed here) ∙ out in cc
        | inr away ↦ away
      ])

  -- After a cycle that returns no error, the cache holds no record of the repository that the cycle
  -- did not find in its files, in whatever order the workers' results arrived.
  pub index_repo-fresh :
      (ix : Indexer) (ctx : Text → Option Error) (tree : Text → Node)
      (arrive : List ParseResult → List ParseResult) (ended : Option Error) (repo : Text)
      (s : db.State) (j : Text)
      → (index_repo db ix ctx tree arrive ended repo s).0.1 ≡ none
      → has_prefix (repo_symbol_prefix repo) j ≡ true
      → contains (result_keys repo (crawled ix ctx tree arrive repo)) j ≡ false
      → db.get (index_repo db ix ctx tree arrive ended repo s).1 j ≡ missing
  unfolding index_repo crawled
  index_repo-fresh ix ctx tree arrive ended repo s j done mine out =
      elim (Result-cases (safe_repo_path ix.fs ix.opts.workspace_root repo)) [
        | inl (e, bad) ↦ let clash = rw (bad, index_repo) at done in cc
        | inr (path, found) ↦
            rw (found, index_repo)
              (run_cycle-gone ix arrive repo ended path s (collect_files ix ctx path (tree path)) j
                (rw (found, index_repo) at done) mine (rw (found, crawled) at out))
      ]
