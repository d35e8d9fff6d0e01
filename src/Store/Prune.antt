-- ===== src/Store/Prune.antt =====
-- internal/ast/store/store.go: `RepoSymbolKeys` and `PruneRepo`.
pub mod Laws
use dotfs_mcp_server.Base.{
  ℕ, zero, suc, ◌+◌, Bool, true, false, not, Option, none, some, List, [], ◌∷◌, ◌++◌, Text, txt,
  ◌==◌, bytes_eq, contains, take, drop, length, is_empty, Result, ok, err, Error, wrap,
  if◌then◌else◌,
}
use dotfs_mcp_server.Ast.{SymbolRecord}
use dotfs_mcp_server.Store.Keys.{index_keys, repo_symbol_prefix}
use dotfs_mcp_server.Store.Backend.{Fetched, found, missing, failed, Backend, update}

abbrev pub delete_batch : ℕ
delete_batch = 512

-- A stale key with its record; `none` stands for the zero record of an unreadable payload.
abbrev pub Stale : Type 0
Stale = Text × Option SymbolRecord

module _ (db : Backend) where
  -- `RepoSymbolKeys`
  unfoldable pub repo_symbol_keys : Text → db.State → List Text
  unfolding repo_symbol_prefix
  repo_symbol_keys repo s = db.keys s (repo_symbol_prefix repo)

  abbrev read_stale : Fetched db.Value → Option SymbolRecord
  read_stale (found v) = db.unmarshal v
  read_stale missing = none
  read_stale (failed e) = none

  -- The scan: every key that is not to be kept.
  unfoldable pub stale_entries : List Text → db.State → List Text → List Stale
  stale_entries live s [] = []
  stale_entries live s (k ∷ ks) =
      let rest = stale_entries live s ks in
      if contains live k then rest else (k, read_stale (db.get s k)) ∷ rest

  unfoldable pub delete_all : List Text → db.State → db.State
  delete_all [] s = s
  delete_all (k ∷ ks) s = delete_all ks (db.delete s k)

  -- The closure of one batch.
  unfoldable pub delete_entries : List Stale → db.State → db.State
  unfolding delete_all
  delete_entries [] s = s
  delete_entries ((k, none) ∷ es) s = delete_entries es (db.delete s k)
  delete_entries ((k, some rec) ∷ es) s =
      delete_entries es
        (if is_empty rec.name then db.delete s k else delete_all (index_keys rec) (db.delete s k))

  abbrev pub delete_txn : List Stale → db.State → Result (Unit {0} × db.State)
  delete_txn es s = ok (tt, delete_entries es s)

  -- An error of a batch ends the loop.
  abbrev after_batch :
      ℕ
      → (db.State → (ℕ × Option Error) × db.State)
      → Result (Unit {0}) × db.State
      → (ℕ × Option Error) × db.State
  after_batch removed next (ok _, t) = next t
  after_batch removed next (err e, t) =
      ((removed, some (wrap (txt "invalidate stale records") e)), t)

  -- The loop over the batches, with the removed count; the fuel is the number of entries.
  unfoldable pub prune_batches : ℕ → List Stale → ℕ → db.State → (ℕ × Option Error) × db.State
  unfolding delete_entries
  prune_batches fuel [] removed s = ((removed, none), s)
  prune_batches zero (e ∷ es) removed s = ((removed, none), s)
  prune_batches (suc fuel) (e ∷ es) removed s =
      let batch = take delete_batch (e ∷ es) in
      let rest = drop delete_batch (e ∷ es) in
      after_batch removed (λ t. prune_batches fuel rest (removed + length batch) t)
        (update db (delete_txn batch) s)

  -- `PruneRepo`
  unfoldable pub prune_repo : Text → List Text → db.State → (ℕ × Option Error) × db.State
  unfolding stale_entries prune_batches repo_symbol_prefix
  prune_repo repo live s =
      let stale = stale_entries live s (db.keys s (repo_symbol_prefix repo)) in
      prune_batches (length stale) stale 0 s
