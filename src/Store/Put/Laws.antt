-- ===== src/Store/Put/Laws.antt =====
-- internal/ast/store/store.go: what `PutSymbol` leaves in the database.
use mathlib.Core.Logic.{if_pos, if_neg}
use mathlib.Core.Path.{subst}
use dotfs_mcp_server.Base.{
  ◌≡◌, refl, ◌∙◌, Bool, false, Option, none, some, List, [], ◌∷◌, Text, ◌==◌, bytes_eq, contains,
  Result, Result-cases, ok, err, Error, if◌then◌else◌, arith, inl, inr, ◌⊎◌, sym, ap,
}
use dotfs_mcp_server.Ast.{SymbolRecord, validate}
use dotfs_mcp_server.Ast.Fingerprint.{fingerprint}
use dotfs_mcp_server.Store.Keys.{primary_key, index_keys}
use dotfs_mcp_server.Store.Keys.Layout.{contains-index_keys}
use dotfs_mcp_server.Store.Backend.{
  Fetched, found, Backend, IsUtf8, IsLawful, commit, finish, Fetched-cases,
}
use dotfs_mcp_server.Store.Put.{
  set_all, write_indexes, unchanged, put_txn, put_symbol, write_record, with_key,
}

module _ (db : Backend) (L : IsLawful db) where
  -- After the writes of one value under a list of keys.
  pub get-set_all :
      (ks : List Text) (v : db.Value) (s : db.State) (j : Text)
      → db.get (set_all db ks v s) j ≡ (if contains ks j then found v else db.get s j)
  unfolding set_all
  get-set_all [] v s j = refl
  get-set_all (k ∷ ks) v s j = ground (arith, get-set_all ks v (db.set s k v) j, L.get-set s k v j)

  -- No index key is a primary key.
  pub get-write_indexes :
      (rec : SymbolRecord) (p : Text) (s : db.State) (j : Text)
      → db.get (write_indexes db rec p s) j
        ≡ (if contains (index_keys rec) j then found (db.of_text p) else db.get s j)
  unfolding write_indexes
  get-write_indexes rec p s j = get-set_all (index_keys rec) (db.of_text p) s j

-- A copy of a record under its key: the encoded record, or an older value that is read as a record with
-- the same fingerprint.
abbrev pub IsCopy : (db : Backend) → SymbolRecord → Fetched db.Value → Type 0
IsCopy db rec f =
    (f ≡ found (db.marshal rec))
    ⊎ ((v : db.Value) × (r : SymbolRecord) × (f ≡ found v)
        × (db.unmarshal v ≡ some r)
        × (fingerprint db.digest r ≡ fingerprint db.digest rec))

-- What a successful put of `rec` makes of the state `s`.
pub record IsStored (db : Backend) (rec : SymbolRecord) (s t : db.State) : Type 0 where
  pub copy : IsCopy db rec (db.get t (primary_key rec))
  pub cells :
      (j : Text)
      → db.get t j ≡ (
          if contains (index_keys rec) j
          then found (db.of_text (primary_key rec))
          else if j == primary_key rec
          then db.get t j
          else db.get s j)

module _ (db : Backend) (L : IsLawful db) where
  module _ (rec : SymbolRecord) (s : db.State) where
    abbrev key : Text
    key = primary_key rec

    get-write_primary : (u : db.State) → db.get (write_indexes db rec key u) key ≡ db.get u key
    get-write_primary u = get-write_indexes db L rec key u key ∙ rw (contains-index_keys rec rec)

    kept_IsStored :
        (v : db.Value) (r : SymbolRecord)
        → db.get s key ≡ found v
        → db.unmarshal v ≡ some r
        → fingerprint db.digest r ≡ fingerprint db.digest rec
        → IsStored db rec s (write_indexes db rec key s)
    kept_IsStored v r g u f = record {
      copy = inr (v, r, get-write_primary s ∙ g, u, f);
      cells = λ j. ground (arith, get-write_indexes db L rec key s j);
    }

    written_IsStored : IsStored db rec s (write_indexes db rec key (db.set s key (db.marshal rec)))
    written_IsStored =
        let t = db.set s key (db.marshal rec) in
        record {
          copy = inl (get-write_primary t ∙ L.get-set s key (db.marshal rec) key ∙ ground arith);
          cells = λ j.
              ground
                (arith, get-write_indexes db L rec key t j, L.get-set s key (db.marshal rec) j);
        }

    TxnOutcome : Result (Bool × db.State) → Type 0
    TxnOutcome (ok (b, t)) = IsStored db rec s t
    TxnOutcome (err e) = Unit

    written_outcome : TxnOutcome (write_record db rec s)
    unfolding TxnOutcome
    written_outcome = written_IsStored

    found_outcome :
        (v : db.Value) (o : Option SymbolRecord)
        → db.get s key ≡ found v
        → db.unmarshal v ≡ o
        → TxnOutcome (
            if unchanged db rec o
            then ok (false, write_indexes db rec key s)
            else write_record db rec s)
    unfolding TxnOutcome unchanged
    found_outcome v none g u = written_outcome
    found_outcome v (some r) g u =
        elim (bytes_eq.dec (fingerprint db.digest r) (fingerprint db.digest rec)) [
          | yes f ↦ rw (if_pos _ f) (kept_IsStored v r g u f)
          | no f ↦ rw (if_neg _ f) written_outcome
        ]

    put_txn_outcome : TxnOutcome (put_txn db rec s)
    unfolding put_txn TxnOutcome
    put_txn_outcome = elim (Fetched-cases (db.get s key)) [
      | inl (v, g) ↦ rw (g, put_txn) (found_outcome v (db.unmarshal v) g refl)
      | inr (inl g) ↦ rw (g, put_txn) written_outcome
      | inr (inr (e, g)) ↦ rw (g, put_txn) tt
    ]

    -- What a put returns, and the state that it leaves.
    abbrev pub PutOutcome : Result (Text × Bool) × db.State → Type 0
    PutOutcome (ok (k, changed), t) = (validate rec ≡ ok tt) × (k ≡ key) × IsStored db rec s t
    PutOutcome (err e, t) = t ≡ s

    commit_outcome :
        (b : Bool) (t : db.State) (o : Option Error)
        → validate rec ≡ ok tt
        → IsStored db rec s t
        → PutOutcome (with_key db key (commit db s t b o))
    commit_outcome b t none h st = (h, refl, st)
    commit_outcome b t (some e) h st = refl

    finish_outcome :
        (r : Result (Bool × db.State))
        → validate rec ≡ ok tt
        → TxnOutcome r
        → PutOutcome (with_key db key (finish db s r))
    unfolding TxnOutcome
    finish_outcome (ok (b, t)) h st = commit_outcome b t (db.refuses s t) h st
    finish_outcome (err e) h st = refl

    -- A put that succeeds returns the primary key of a valid record, and leaves under that key the
    -- encoded record, or an older value that is read as a record with the same fingerprint, every
    -- index key of the record pointing to it, and all else as it was. A put that fails changes
    -- nothing.
    pub put_symbol_outcome : PutOutcome (put_symbol db rec s)
    unfolding put_symbol
    put_symbol_outcome = elim (Result-cases (validate rec)) [
      | inl (e, h) ↦ rw (h, put_symbol) refl
      | inr (u, h) ↦ rw (h, put_symbol) (finish_outcome (put_txn db rec s) h put_txn_outcome)
    ]

    copy-readable :
        (f : Fetched db.Value)
        → IsUtf8 rec
        → IsCopy db rec f
        → (v : db.Value) × (r : SymbolRecord) × (f ≡ found v)
          × (db.unmarshal v ≡ some r)
          × (fingerprint db.digest r ≡ fingerprint db.digest rec)
    copy-readable f valid (inl h) = (db.marshal rec, rec, h, L.unmarshal-marshal rec valid, refl)
    copy-readable f valid (inr h) = h

    -- What a run of `PutSymbol` that returned no error has left.
    pub returned-IsStored :
        (k : Text) (changed : Bool) (t : db.State)
        → put_symbol db rec s ≡ (ok (k, changed), t)
        → (validate rec ≡ ok tt) × (k ≡ key) × IsStored db rec s t
    returned-IsStored k changed t run = subst PutOutcome run put_symbol_outcome

module _ (db : Backend) (L : IsLawful db) (rec : SymbolRecord) where
  -- The copy that a run of `PutSymbol` has left can be read, if the record is valid UTF-8.
  pub put-readable :
      (s t : db.State) (k : Text) (changed : Bool)
      → IsUtf8 rec
      → put_symbol db rec s ≡ (ok (k, changed), t)
      → (v : db.Value) × (r : SymbolRecord) × (db.get t (primary_key rec) ≡ found v)
        × (db.unmarshal v ≡ some r)
        × (fingerprint db.digest r ≡ fingerprint db.digest rec)
  put-readable s t k changed valid run =
      copy-readable db L rec s (db.get t (primary_key rec)) valid
        (returned-IsStored db L rec s k changed t run).2.copy

  put_txn_again :
      (t : db.State) (v : db.Value) (r : SymbolRecord)
      → db.get t (primary_key rec) ≡ found v
      → db.unmarshal v ≡ some r
      → fingerprint db.digest r ≡ fingerprint db.digest rec
      → put_txn db rec t ≡ ok (false, write_indexes db rec (primary_key rec) t)
  unfolding put_txn unchanged
  put_txn_again t v r g u f = rw (g, put_txn) (rw (u, put_txn, unchanged) (rw (if_pos _ f)))

  -- Writing the index entries again leaves every key as it is.
  write_indexes_again :
      (s t : db.State) (j : Text)
      → IsStored db rec s t
      → db.get (write_indexes db rec (primary_key rec) t) j ≡ db.get t j
  write_indexes_again s t j st =
      ground (arith, get-write_indexes db L rec (primary_key rec) t j, st.cells j)

  -- `PutSymbol` again, on the state that it has left, of a record in valid UTF-8: it returns the same
  -- key and that nothing was written, unless the commit is refused, and every key has the value
  -- that it had.
  pub put_symbol_again :
      (s t : db.State) (k : Text) (changed : Bool) (j : Text)
      → IsUtf8 rec
      → put_symbol db rec s ≡ (ok (k, changed), t)
      → db.refuses t (write_indexes db rec (primary_key rec) t) ≡ none
      → ((put_symbol db rec t).0 ≡ ok (k, false)) × (db.get (put_symbol db rec t).1 j ≡ db.get t j)
  unfolding put_symbol
  put_symbol_again s t k changed j valid run accepted =
      let left = returned-IsStored db L rec s k changed t run in
      let (v, r, g, u, f) = put-readable s t k changed valid run in
      let again : put_symbol db rec t
          ≡ (ok (primary_key rec, false), write_indexes db rec (primary_key rec) t) =
        rw (left.0, put_symbol)
          (rw (put_txn_again t v r g u f, put_symbol) (rw (accepted, put_symbol, commit) refl)) in
      (
        ap (λ p. p.0) again ∙ ap (λ (q : Text). ok (q, false)) (sym left.1),
        ap (λ p. db.get p.1 j) again ∙ write_indexes_again s t j left.2,
      )
