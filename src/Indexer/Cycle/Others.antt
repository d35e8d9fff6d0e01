-- ===== src/Indexer/Cycle/Others.antt =====
-- internal/ast/indexer/indexer.go: an indexing cycle and the other repositories.
use dotfs_mcp_server.Base.{
  ◌≡◌, refl, ap, sym, ◌∙◌, Bool, true, false, List, [], ◌∷◌, Text, Option, none, some, has_prefix,
  ==-refl, bytes_eq, Result, ok, err, Error, Result-cases, inl, inr, arith,
}
use dotfs_mcp_server.Ast.{SymbolRecord}
use dotfs_mcp_server.Parser.{Symbol}
use dotfs_mcp_server.Utils.Safe.{safe_repo_path}
use dotfs_mcp_server.Store.Keys.{primary_key, sym_prefix, repo_symbol_prefix, esc}
use dotfs_mcp_server.Store.Keys.Layout.{has_prefix-primary_key}
use dotfs_mcp_server.Store.Backend.{Backend, IsLawful}
use dotfs_mcp_server.Store.Put.{put_symbol}
use dotfs_mcp_server.Store.Put.Laws.{PutOutcome, put_symbol_outcome}
use dotfs_mcp_server.Store.Prune.{prune_repo}
use dotfs_mcp_server.Store.Prune.Laws.{prune_repo_keeps, contains-index_keys_of_sym}
use dotfs_mcp_server.Indexer.Options.{Indexer, to_record}
use dotfs_mcp_server.Indexer.Files.{
  ParseResult, Parsed, filtered, parsed, parse_failed, Node, Walk, collect_files,
}
use dotfs_mcp_server.Indexer.Cycle.{
  Writer, after_put, write_symbols, write_outcome, write_results, close_cycle, index_repo,
  run_cycle,
}
use dotfs_mcp_server.Indexer.Cycle.Laws.{crawled_from, after_prune-state}

module _ (db : Backend) (L : IsLawful db) where
  put-others :
      (rec : SymbolRecord) (s : db.State) (r : Result (Text × Bool) × db.State) (j : Text)
      → PutOutcome db L rec s r
      → has_prefix sym_prefix j ≡ true
      → has_prefix (repo_symbol_prefix rec.repo_name) j ≡ false
      → db.get r.1 j ≡ db.get s j
  put-others rec s (err e, t) j same p out = ap (λ u. db.get u j) same
  put-others rec s (ok (k, b), t) j (valid, same, st) p out =
      elim (bytes_eq.dec j (primary_key rec)) [
        | yes e ↦
            let clash : true ≡ false =
              sym (==-refl (esc rec.repo_name))
              ∙ sym (has_prefix-primary_key rec.repo_name rec)
              ∙ ap (has_prefix (repo_symbol_prefix rec.repo_name)) (sym e)
              ∙ out in
            cc
        | no other ↦ ground (arith, st.cells j, contains-index_keys_of_sym rec j p)
      ]

  state-after_put :
      (t : _) (w : Writer db) (r : Result (Text × Bool) × db.State)
      → (after_put db t w r).state ≡ r.1
  state-after_put t w (ok kb, s) = refl
  state-after_put t w (err e, s) = refl

  module _ (repo j : Text) (p : has_prefix sym_prefix j ≡ true)
      (out : has_prefix (repo_symbol_prefix repo) j ≡ false) where
    others-write_symbols :
        (path : Text) (syms : List Symbol) (w : Writer db)
        → db.get (write_symbols db repo path syms w).state j ≡ db.get w.state j
    unfolding write_symbols
    others-write_symbols path [] w = refl
    others-write_symbols path (s ∷ ss) w =
        let rec = to_record repo path s in
        let put = put_symbol db rec w.state in
        others-write_symbols path ss (after_put db s.symbol_type w put)
        ∙ ap (λ u. db.get u j) (state-after_put s.symbol_type w put)
        ∙ put-others rec w.state put j (put_symbol_outcome db L rec w.state) p
            (unfold to_record in out)

    others-write_outcome :
        (path : Text) (o : Parsed) (w : Writer db)
        → db.get (write_outcome db repo path o w).state j ≡ db.get w.state j
    unfolding write_outcome
    others-write_outcome path filtered w = refl
    others-write_outcome path (parse_failed e) w = refl
    others-write_outcome path (parsed symbols) w = others-write_symbols path symbols _

    others-write_results :
        (rs : List ParseResult) (w : Writer db)
        → db.get (write_results db repo rs w).state j ≡ db.get w.state j
    unfolding write_results
    others-write_results [] w = refl
    others-write_results (r ∷ rs) w =
        others-write_results rs _ ∙ others-write_outcome r.rel_path r.outcome w

    others-close_cycle :
        (ended : Option Error) (w : Writer db)
        → db.get (close_cycle db repo ended w).1 j ≡ db.get w.state j
    unfolding close_cycle
    others-close_cycle (some e) w = refl
    others-close_cycle none w =
        ap (λ s. db.get s j)
          (after_prune-state db L w.summary (prune_repo db repo w.live w.state)).1
        ∙ prune_repo_keeps db L repo w.live w.state j p (inr out)

    others-run_cycle :
        (ix : Indexer) (arrive : List ParseResult → List ParseResult) (ended : Option Error)
        (path : Text) (s : db.State) (o : Result Walk)
        → db.get (run_cycle db ix arrive repo ended path s o).1 j ≡ db.get s j
    others-run_cycle ix arrive ended path s (err e) = refl
    others-run_cycle ix arrive ended path s (ok walk) =
        others-close_cycle ended _ ∙ others-write_results (crawled_from ix arrive path (ok walk)) _

  -- A cycle of a repository, whether it fails or not, leaves the cached records of all other
  -- repositories as they are.
  pub index_repo-others :
      (ix : Indexer) (ctx : Text → Option Error) (tree : Text → Node)
      (arrive : List ParseResult → List ParseResult) (ended : Option Error) (repo : Text)
      (s : db.State) (j : Text)
      → has_prefix sym_prefix j ≡ true
      → has_prefix (repo_symbol_prefix repo) j ≡ false
      → db.get (index_repo db ix ctx tree arrive ended repo s).1 j ≡ db.get s j
  unfolding index_repo
  index_repo-others ix ctx tree arrive ended repo s j p out =
      elim (Result-cases (safe_repo_path ix.fs ix.opts.workspace_root repo)) [
        | inl (e, bad) ↦ rw (bad, index_repo) refl
        | inr (path, found) ↦
            rw (found, index_repo)
              (others-run_cycle repo j p out ix arrive ended path s
                (collect_files ix ctx path (tree path)))
      ]
