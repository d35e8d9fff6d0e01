-- ===== src/Store/Keys/Layout.antt =====
-- internal/ast/store/store.go: which keys fall under which prefix, and what a key tells.
use dotfs_mcp_server.Base.{
  ℕ, ◌≡◌, refl, ap, ◌∙◌, sym, true, false, Option, some, List, [], ◌∷◌, ◌++◌, Text, ◌==◌, nat_eq,
  bytes_eq, contains, contains-append, has_prefix, cut, arith, pos, value, value-padded, drop,
}
use dotfs_mcp_server.Ast.{SymbolRecord}
use dotfs_mcp_server.Store.Keys.{
  esc, colon, offset_token, primary_key, name_index_key, type_index_key, repo_symbol_prefix,
  matched_name, component, name_keys, index_keys, file_index_key,
}
use dotfs_mcp_server.Store.Keys.Esc.{IsPlain, unesc-esc, cut-esc, contains-esc, esc-injective}

-- A separated component is a prefix of another exactly when the components are the same.
has_prefix-component :
    (a b rest : Text)
    → contains a b':' ≡ false
    → contains b b':' ≡ false
    → has_prefix (a ++ colon) (b ++ (b':' ∷ rest)) ≡ (a == b)
unfolding has_prefix nat_eq
has_prefix-component [] [] rest p q = ground arith
has_prefix-component [] (d ∷ b) rest p q = ground arith
has_prefix-component (c ∷ a) [] rest p q = ground arith
has_prefix-component (c ∷ a) (d ∷ b) rest p q = ground (arith, has_prefix-component a b rest)

-- A primary key lies under a repository's prefix just when the record is of that repository, as far
-- as the escaped names tell.
pub has_prefix-primary_key :
    (repo : Text) (rec : SymbolRecord)
    → has_prefix (repo_symbol_prefix repo) (primary_key rec) ≡ (esc repo == esc rec.repo_name)
unfolding repo_symbol_prefix primary_key
has_prefix-primary_key repo rec =
    unfold has_prefix in
    has_prefix-component (esc repo) (esc rec.repo_name) _ (contains-esc repo)
      (contains-esc rec.repo_name)

component-esc : (s rest : Text) → IsPlain s → component (esc s ++ (b':' ∷ rest)) ≡ some s
unfolding component
component-esc s rest p = rw (cut-esc s rest, component) (ap some (unesc-esc s p))

-- The name that an entry of the name index gives back is the name that it was written for.
pub matched_name-name_index_key :
    (name : Text) (rec : SymbolRecord)
    → IsPlain name
    → matched_name (name_index_key name rec) false ≡ some name
unfolding matched_name name_index_key
matched_name-name_index_key name rec p = component-esc name _ p

-- So is the name that an entry of the type index gives back, for every kind of symbol.
pub matched_name-type_index_key :
    (name : Text) (rec : SymbolRecord)
    → IsPlain name
    → matched_name (type_index_key name rec) true ≡ some name
unfolding matched_name type_index_key
matched_name-type_index_key name rec p =
    rw (cut-esc rec.symbol_type, matched_name) (component-esc name _ p)

offset_token-injective : (m n : ℕ) → offset_token (pos m) ≡ offset_token (pos n) → m ≡ n
unfolding offset_token
offset_token-injective m n e = sym (value-padded 8 m) ∙ ap (value 0) e ∙ value-padded 8 n

-- Separated components can be read off one by one.
component-injective :
    (a b r t : Text)
    → IsPlain a
    → IsPlain b
    → (esc a ++ (b':' ∷ r)) ≡ (esc b ++ (b':' ∷ t))
    → (a ≡ b) × (r ≡ t)
component-injective a b r t p q e =
    let same : ◌≡◌ {A = Option (Text × Text)} (some (esc a, r)) (some (esc b, t)) =
      sym (cut-esc a r) ∙ ap (cut b':') e ∙ cut-esc b t in
    (esc-injective a b p q (ground arith), ground arith)

-- The parts of a record that its primary key is made of hold no "%3A".
pub record IsPlainRecord (rec : SymbolRecord) : Type 0 where
  pub repo : IsPlain rec.repo_name
  pub file : IsPlain rec.file_path
  pub kind : IsPlain rec.symbol_type
  pub name : IsPlain rec.name

-- What a primary key says of its record.
pub record SameSymbol (r t : SymbolRecord) : Type 0 where
  pub repo : r.repo_name ≡ t.repo_name
  pub file : r.file_path ≡ t.file_path
  pub kind : r.symbol_type ≡ t.symbol_type
  pub name : r.name ≡ t.name
  pub offset : r.start_byte ≡ t.start_byte

-- Two records whose repository, file path, kind and name hold no "%3A", and whose offsets are not
-- negative, share a primary key only if they agree in repository, file path, kind, name and start.
pub primary_key-injective :
    (r t : SymbolRecord) (m n : ℕ)
    → IsPlainRecord r
    → IsPlainRecord t
    → r.start_byte ≡ pos m
    → t.start_byte ≡ pos n
    → primary_key r ≡ primary_key t
    → SameSymbol r t
unfolding primary_key
primary_key-injective r t m n p q hm hn e =
    let repo = component-injective r.repo_name t.repo_name _ _ p.repo q.repo (ap (drop 4) e) in
    let file = component-injective r.file_path t.file_path _ _ p.file q.file repo.1 in
    let kind = component-injective r.symbol_type t.symbol_type _ _ p.kind q.kind file.1 in
    let name = component-injective r.name t.name _ _ p.name q.name kind.1 in
    record {
      repo = repo.0;
      file = file.0;
      kind = kind.0;
      name = name.0;
      offset = hm ∙ ap pos (offset_token-injective m n (rw hm at (rw hn at name.1))) ∙ sym hn;
    }

contains-name_keys :
    (rec t : SymbolRecord) (seen names : List Text)
    → contains (name_keys rec seen names) (primary_key t) ≡ false
unfolding name_keys primary_key
contains-name_keys rec t seen [] = refl
contains-name_keys rec t seen (n ∷ names) =
    ground (arith, contains-name_keys rec t seen names, contains-name_keys rec t (n ∷ seen) names)

-- No key of an index is a primary key.
pub contains-index_keys : (rec t : SymbolRecord) → contains (index_keys rec) (primary_key t) ≡ false
unfolding index_keys
contains-index_keys rec t =
    contains-append (name_keys rec [] (rec.name ∷ rec.aliases)) (file_index_key rec ∷ []) _
    ∙ rw (contains-name_keys rec t [] (rec.name ∷ rec.aliases))
        (unfold file_index_key primary_key in ground arith)
