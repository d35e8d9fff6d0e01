-- ===== src/Store/Backend.antt =====
-- The key-value database and the codecs that internal/ast/store/store.go stands on: BadgerDB, the
-- JSON form of a record and the SHA-256 digest. They are parameters, with their documented laws.
pub mod Memory
use dotfs_mcp_server.Base.{
  ℕ, ◌≡◌, ◌≢◌, ◌⊎◌, inl, inr, refl, Bool, true, false, Option, none, some, List, [], ◌∷◌, ◌&&◌,
  is_utf8, Text, ◌==◌, bytes_eq, contains, has_prefix, Result, ok, err, Error, if◌then◌else◌, ◌↔◌,
  Distinct,
}
use dotfs_mcp_server.Ast.{SymbolRecord}

-- What `txn.Get` and `item.Value` give: a value, `ErrKeyNotFound`, or another error.
pub data Fetched {ℓ} (V : Type ℓ) : Type ℓ where
  found : V → Fetched V
  missing : Fetched V
  failed : Error → Fetched V

pub Fetched-cases {ℓ} :
    {V : Type ℓ} (f : Fetched V)
    → ((v : V) × (f ≡ found v)) ⊎ ((f ≡ missing) ⊎ ((e : Error) × (f ≡ failed e)))
Fetched-cases (found v) = inl (v, refl)
Fetched-cases missing = inr (inl refl)
Fetched-cases (failed e) = inr (inr (e, refl))

-- Every text of a record is valid UTF-8.
unfoldable pub all_utf8 : List Text → Bool
unfolding is_utf8
all_utf8 [] = true
all_utf8 (t ∷ ts) = is_utf8 t && all_utf8 ts

abbrev pub IsUtf8 : SymbolRecord → Type 0
IsUtf8 r =
    all_utf8 (
      r.repo_name ∷ r.file_path ∷ r.language ∷ r.symbol_type ∷ r.name ∷ r.parent_scope
      ∷ r.documentation ∷ r.signature ∷ r.source_code ∷ r.aliases)
    ≡ true

pub record Backend : Type 1 where
  pub State : Type 0
  pub Value : Type 0
  pub get : State → Text → Fetched Value
  pub set : State → Text → Value → State
  pub delete : State → Text → State
  -- the keys under a prefix, in the order of the iterator
  pub keys : State → Text → List Text
  -- why a transaction from the first state to the second is refused, if it is
  pub refuses : State → State → Option Error
  pub marshal : SymbolRecord → Value
  pub unmarshal : Value → Option SymbolRecord
  -- a primary key as a value, and a value read as one
  pub of_text : Text → Value
  pub to_text : Value → Text
  pub digest : Text → Text

pub record IsLawful (db : Backend) : Type 0 where
  pub get-set :
      (s : db.State) (k : Text) (v : db.Value) (j : Text)
      → db.get (db.set s k v) j ≡ (if j == k then found v else db.get s j)
  pub get-delete :
      (s : db.State) (k j : Text)
      → db.get (db.delete s k) j ≡ (if j == k then missing else db.get s j)
  pub contains-keys :
      (s : db.State) (p k : Text)
      → (contains (db.keys s p) k ≡ true) ↔ ((has_prefix p k ≡ true) × (db.get s k ≢ missing))
  pub keys-Distinct : (s : db.State) (p : Text) → Distinct (db.keys s p)
  -- encoding/json replaces what is not valid UTF-8, and only that.
  pub unmarshal-marshal : (r : SymbolRecord) → IsUtf8 r → db.unmarshal (db.marshal r) ≡ some r
  pub to_text-of_text : (t : Text) → db.to_text (db.of_text t) ≡ t

-- `db.Update(fn)`: the writes of `fn` are kept if it returns no error and the commit is not
-- refused. An error of `txn.Set` or `txn.Delete` ends in the same way as a refused commit.
module _ (db : Backend) where
  abbrev pub commit {ℓ} :
      {A : Type ℓ} → db.State → db.State → A → Option Error → Result A × db.State
  commit s s' a none = (ok a, s')
  commit s s' a (some e) = (err e, s)

  abbrev pub finish {ℓ} : {A : Type ℓ} → db.State → Result (A × db.State) → Result A × db.State
  finish s (ok (a, s')) = commit s s' a (db.refuses s s')
  finish s (err e) = (err e, s)

  abbrev pub update {ℓ} :
      {A : Type ℓ} → (db.State → Result (A × db.State)) → db.State → Result A × db.State
  update fn s = finish s (fn s)
