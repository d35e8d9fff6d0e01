-- ===== src/Store/Put.antt =====
-- internal/ast/store/store.go: `PutSymbol` and `writeIndexes`.
pub mod Laws
use dotfs_mcp_server.Base.{
  Bool, true, false, Option, none, some, List, [], ◌∷◌, Text, txt, ◌==◌, bytes_eq, Result, ok, err,
  Error, wrapped, if◌then◌else◌,
}
use dotfs_mcp_server.Ast.{SymbolRecord, validate}
use dotfs_mcp_server.Ast.Fingerprint.{fingerprint}
use dotfs_mcp_server.Store.Keys.{primary_key, index_keys}
use dotfs_mcp_server.Store.Backend.{Fetched, found, missing, failed, Backend, update}

module _ (db : Backend) where
  -- The loop of `writeIndexes`.
  unfoldable pub set_all : List Text → db.Value → db.State → db.State
  set_all [] v s = s
  set_all (k ∷ ks) v s = set_all ks v (db.set s k v)

  unfoldable pub write_indexes : SymbolRecord → Text → db.State → db.State
  unfolding set_all
  write_indexes rec primary s = set_all (index_keys rec) (db.of_text primary) s

  -- The cached copy can be read and has the fingerprint of the new record.
  unfoldable pub unchanged : SymbolRecord → Option SymbolRecord → Bool
  unchanged rec none = false
  unchanged rec (some existing) = fingerprint db.digest existing == fingerprint db.digest rec

  abbrev write_record : SymbolRecord → db.State → Result (Bool × db.State)
  write_record rec s =
      let primary = primary_key rec in
      ok (true, write_indexes rec primary (db.set s primary (db.marshal rec)))

  -- The closure that `PutSymbol` hands to `db.Update`.
  unfoldable pub put_txn : SymbolRecord → db.State → Result (Bool × db.State)
  unfolding unchanged write_indexes
  put_txn rec s = elim (db.get s (primary_key rec)) [
    | found v ↦
        if unchanged rec (db.unmarshal v)
        then ok (false, write_indexes rec (primary_key rec) s)
        else write_record rec s
    | missing ↦ write_record rec s
    | failed e ↦ err e
  ]

  -- The key and the flag that `PutSymbol` returns beside a nil error.
  abbrev with_key : Text → Result Bool × db.State → Result (Text × Bool) × db.State
  with_key primary (ok changed, s) = (ok (primary, changed), s)
  with_key primary (err e, s) = (wrapped (txt "cache symbol") (err e), s)

  unfoldable pub put_symbol : SymbolRecord → db.State → Result (Text × Bool) × db.State
  unfolding put_txn
  put_symbol rec s = elim (validate rec) [
    | err e ↦ (wrapped (txt "invalid record") (err e), s)
    | ok _ ↦ with_key (primary_key rec) (update db (put_txn rec) s)
  ]
