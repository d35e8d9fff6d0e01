-- ===== src/Indexer/Cycle/Exact.antt =====
-- internal/ast/indexer/indexer.go: the records of the repository behind a complete cycle.
use dotfs_mcp_server.Base.{
  ◌≡◌, ◌≢◌, refl, ap, sym, ◌∙◌, Bool, true, List, [], ◌∷◌, Text, Option, none, some, has_prefix,
  contains, contains-append, bytes_eq, ◌++◌, ◌||◌, Result, ok, err, Error, Result-cases, inl, inr,
  arith, Bool-cases, ◌↔◌,
}
use dotfs_mcp_server.Ast.{SymbolRecord}
use dotfs_mcp_server.Parser.{Symbol}
use dotfs_mcp_server.Utils.Safe.{safe_repo_path}
use dotfs_mcp_server.Store.Keys.{primary_key, repo_symbol_prefix}
use dotfs_mcp_server.Store.Backend.{Backend, IsLawful, Fetched, missing}
use dotfs_mcp_server.Store.Put.{put_symbol}
use dotfs_mcp_server.Store.Put.Laws.{PutOutcome, IsCopy, put_symbol_outcome}
use dotfs_mcp_server.Store.Prune.{prune_repo}
use dotfs_mcp_server.Store.Prune.Laws.{prune_repo_removes}
use dotfs_mcp_server.Indexer.Options.{Indexer, to_record}
use dotfs_mcp_server.Indexer.Files.{
  ParseResult, Parsed, filtered, parsed, parse_failed, Node, Walk, collect_files,
}
use dotfs_mcp_server.Indexer.Cycle.{
  Writer, after_put, write_symbols, write_outcome, write_results, close_cycle, index_repo,
  run_cycle, started,
}
use dotfs_mcp_server.Indexer.Cycle.Laws.{crawled_from, crawled, after_prune-state}

module _ (db : Backend) where
  abbrev returned : Result (Text × Bool) → List Text
  returned (err e) = []
  returned (ok (key, written)) = key ∷ []

  -- Calls of `PutSymbol`, one for each symbol of a file: the keys that they return without an error,
  -- whether the record was written or not, and the database that they leave.
  unfoldable pub put_all : Text → Text → List Symbol → db.State → List Text × db.State
  put_all repo path [] s = ([], s)
  put_all repo path (x ∷ xs) s =
      let one = put_symbol db (to_record repo path x) s in
      let rest = put_all repo path xs one.1 in (returned one.0 ++ rest.0, rest.1)

  abbrev put_parsed : Text → Text → Parsed → db.State → List Text × db.State
  put_parsed repo path filtered s = ([], s)
  put_parsed repo path (parse_failed e) s = ([], s)
  put_parsed repo path (parsed symbols) s = put_all repo path symbols s

  -- The calls for the symbols of all files that were parsed.
  unfoldable pub put_results : Text → List ParseResult → db.State → List Text × db.State
  put_results repo [] s = ([], s)
  put_results repo (r ∷ rs) s =
      let one = put_parsed repo r.rel_path r.outcome s in
      let rest = put_results repo rs one.1 in (one.0 ++ rest.0, rest.1)

  -- Every live key is in the cache.
  abbrev AllPresent : Writer db → Type 0
  AllPresent w = (j : Text) → contains w.live j ≡ true → db.get w.state j ≢ missing

  -- The writer `w` follows `u`: it has the state behind the calls, and the keys that they returned.
  record Follows (u w : Writer db) (calls : List Text × db.State) : Type 0 where
    pub state : w.state ≡ calls.1
    pub keys : (j : Text) → contains w.live j ≡ (contains u.live j || contains calls.0 j)

  after_put-Follows :
      (t : _) (w : Writer db) (r : Result (Text × Bool) × db.State)
      → Follows w (after_put db t w r) (returned r.0, r.1)
  after_put-Follows t w (err e, s) = record { state = refl; keys = λ j. ground arith }
  after_put-Follows t w (ok (k, b), s) = record { state = refl; keys = λ j. ground arith }

  Follows-trans :
      (u v w : Writer db) (first : List Text × db.State) (later : db.State → List Text × db.State)
      → Follows u v first
      → Follows v w (later v.state)
      → Follows u w (first.0 ++ (later first.1).0, (later first.1).1)
  Follows-trans u v w first later a b = record {
    state = b.state ∙ ap (λ s. (later s).1) a.state;
    keys = λ j.
        let same = ap (λ s. contains (later s).0 j) a.state in
        ground (arith, a.keys j, b.keys j, same, contains-append first.0 (later first.1).0 j);
  }

  write_symbols-Follows :
      (repo path : Text) (syms : List Symbol) (w : Writer db)
      → Follows w (write_symbols db repo path syms w) (put_all repo path syms w.state)
  unfolding write_symbols put_all
  write_symbols-Follows repo path [] w = record { state = refl; keys = λ j. ground arith }
  write_symbols-Follows repo path (x ∷ xs) w =
      let r = put_symbol db (to_record repo path x) w.state in
      let next = after_put db x.symbol_type w r in
      Follows-trans w next (write_symbols db repo path xs next) (returned r.0, r.1)
        (put_all repo path xs) (after_put-Follows x.symbol_type w r)
        (write_symbols-Follows repo path xs next)

  write_outcome-Follows :
      (repo path : Text) (o : Parsed) (w : Writer db)
      → Follows w (write_outcome db repo path o w) (put_parsed repo path o w.state)
  unfolding write_outcome
  write_outcome-Follows repo path filtered w = record { state = refl; keys = λ j. ground arith }
  write_outcome-Follows repo path (parse_failed e) w = record {
    state = refl;
    keys = λ j. ground arith;
  }
  write_outcome-Follows repo path (parsed symbols) w =
      let f = write_symbols-Follows repo path symbols _ in record { state = f.state; keys = f.keys }

  write_results-Follows :
      (repo : Text) (rs : List ParseResult) (w : Writer db)
      → Follows w (write_results db repo rs w) (put_results repo rs w.state)
  unfolding write_results put_results
  write_results-Follows repo [] w = record { state = refl; keys = λ j. ground arith }
  write_results-Follows repo (r ∷ rs) w =
      let next = write_outcome db repo r.rel_path r.outcome w in
      Follows-trans w next (write_results db repo rs next)
        (put_parsed repo r.rel_path r.outcome w.state) (put_results repo rs)
        (write_outcome-Follows repo r.rel_path r.outcome w) (write_results-Follows repo rs next)

  copy-present : (rec : SymbolRecord) (f : Fetched db.Value) → IsCopy db rec f → f ≢ missing
  copy-present rec f (inl h) gone = cc
  copy-present rec f (inr (v, r, h, u, g)) gone = cc

  module _ (L : IsLawful db) where
    put-AllPresent :
        (rec : SymbolRecord) (t : _) (w : Writer db) (r : Result (Text × Bool) × db.State)
        → PutOutcome db L rec w.state r
        → AllPresent w
        → AllPresent (after_put db t w r)
    put-AllPresent rec t w (err e, s) same h j live gone =
        h j live (ap (λ u. db.get u j) (sym same) ∙ gone)
    put-AllPresent rec t w (ok (k, b), s) (valid, same, st) h j live gone =
        elim (bytes_eq.dec j (primary_key rec)) [
          | yes e ↦ copy-present rec _ st.copy (ap (db.get s) (sym e) ∙ gone)
          | no other ↦ ground (arith, h j, st.cells j, same)
        ]

    write_symbols-AllPresent :
        (repo path : Text) (syms : List Symbol) (w : Writer db)
        → AllPresent w
        → AllPresent (write_symbols db repo path syms w)
    unfolding write_symbols
    write_symbols-AllPresent repo path [] w h = h
    write_symbols-AllPresent repo path (s ∷ ss) w h =
        let rec = to_record repo path s in
        write_symbols-AllPresent repo path ss
          (after_put db s.symbol_type w (put_symbol db rec w.state))
          (put-AllPresent rec s.symbol_type w (put_symbol db rec w.state)
            (put_symbol_outcome db L rec w.state) h)

    write_outcome-AllPresent :
        (repo path : Text) (o : Parsed) (w : Writer db)
        → AllPresent w
        → AllPresent (write_outcome db repo path o w)
    unfolding write_outcome
    write_outcome-AllPresent repo path filtered w h = h
    write_outcome-AllPresent repo path (parse_failed e) w h = h
    write_outcome-AllPresent repo path (parsed symbols) w h =
        write_symbols-AllPresent repo path symbols _ h

    write_results-AllPresent :
        (repo : Text) (rs : List ParseResult) (w : Writer db)
        → AllPresent w
        → AllPresent (write_results db repo rs w)
    unfolding write_results
    write_results-AllPresent repo [] w h = h
    write_results-AllPresent repo (r ∷ rs) w h =
        write_results-AllPresent repo rs _ (write_outcome-AllPresent repo r.rel_path r.outcome w h)

    close_cycle-exact :
        (repo : Text) (ended : Option Error) (w : Writer db) (j : Text)
        → AllPresent w
        → (close_cycle db repo ended w).0.1 ≡ none
        → has_prefix (repo_symbol_prefix repo) j ≡ true
        → (db.get (close_cycle db repo ended w).1 j ≢ missing) ↔ (contains w.live j ≡ true)
    unfolding close_cycle
    close_cycle-exact repo (some e) w j h done mine = cc
    close_cycle-exact repo none w j h done mine =
        let (same_error, same_state) =
          after_prune-state db L w.summary (prune_repo db repo w.live w.state) in
        let left =
          ap (λ s. db.get s j) same_state
          ∙ prune_repo_removes db L repo w.live w.state j (sym same_error ∙ done) mine in
        elim (Bool-cases (contains w.live j)) [
          | inl live ↦ (λ _. live, λ _ gone. h j live (sym (left ∙ rw live refl) ∙ gone))
          | inr away ↦ (λ some_left. absurd (some_left (left ∙ rw away refl)), λ live. cc)
        ]

    run_cycle-exact :
        (ix : Indexer) (arrive : List ParseResult → List ParseResult) (repo : Text)
        (ended : Option Error) (path : Text) (s : db.State) (o : Result Walk) (j : Text)
        → (run_cycle db ix arrive repo ended path s o).0.1 ≡ none
        → has_prefix (repo_symbol_prefix repo) j ≡ true
        → (db.get (run_cycle db ix arrive repo ended path s o).1 j ≢ missing)
          ↔ (contains (put_results repo (crawled_from ix arrive path o) s).0 j ≡ true)
    run_cycle-exact ix arrive repo ended path s (err e) j done mine = cc
    run_cycle-exact ix arrive repo ended path s (ok walk) j done mine =
        let results = crawled_from ix arrive path (ok walk) in
        let first : Writer db = record {
          summary = started repo walk.scanned;
          live = [];
          state = s;
        } in
        let w = write_results db repo results first in
        let listed = (write_results-Follows repo results first).keys j in
        let kept =
          close_cycle-exact repo ended w j
            (write_results-AllPresent repo results first (λ k live. cc)) done mine in
        (λ there. sym listed ∙ kept.0 there, λ returned. kept.1 (listed ∙ returned))

    -- After a cycle that returns no error, a record of the repository is in the cache just when one
    -- of the calls of `PutSymbol`, for the symbols of the files that the cycle parsed, in the order
    -- of arrival, returned its key without an error, whether it wrote the record or left it.
    pub index_repo-exact :
        (ix : Indexer) (ctx : Text → Option Error) (tree : Text → Node)
        (arrive : List ParseResult → List ParseResult) (ended : Option Error) (repo : Text)
        (s : db.State) (j : Text)
        → (index_repo db ix ctx tree arrive ended repo s).0.1 ≡ none
        → has_prefix (repo_symbol_prefix repo) j ≡ true
        → (db.get (index_repo db ix ctx tree arrive ended repo s).1 j ≢ missing)
          ↔ (contains (put_results repo (crawled ix ctx tree arrive repo) s).0 j ≡ true)
    unfolding index_repo crawled
    index_repo-exact ix ctx tree arrive ended repo s j done mine =
        elim (Result-cases (safe_repo_path ix.fs ix.opts.workspace_root repo)) [
          | inl (e, bad) ↦ let clash = rw (bad, index_repo) at done in cc
          | inr (path, found_it) ↦
              rw (found_it, index_repo, crawled)
                (run_cycle-exact ix arrive repo ended path s (collect_files ix ctx path (tree path))
                  j (rw (found_it, index_repo) at done) mine)
        ]
