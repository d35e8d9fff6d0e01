-- ===== src/Store/Lookup.antt =====
-- internal/ast/store/store.go: `Lookup`, `sortRecords` and `FileSymbols`.
pub mod Order
pub mod Laws
use dotfs_mcp_server.Base.{
  ℕ, zero, suc, ◌≡◌, Bool, true, false, not, ◌&&◌, ◌||◌, Option, none, some, List, [], ◌∷◌, ◌++◌,
  Text, txt, ◌==◌, nat_eq, bytes_eq, contains, less, ltb, sort, take, length, trim_space, is_empty,
  ℤ, pos, negsuc, ltz, Result, ok, err, Error, message, wrapped, ◌>>=◌, if◌then◌else◌, map,
}
use dotfs_mcp_server.Ast.{SymbolRecord, SymbolType}
use dotfs_mcp_server.Store.Keys.{
  esc, colon, name_idx_prefix, type_idx_prefix, matched_name, file_symbol_prefix,
}
use dotfs_mcp_server.Store.Backend.{Fetched, found, missing, failed, Backend}

-- `Filter`
pub record Filter : Type 0 where
  pub repo : Text
  pub types : List SymbolType
  pub exact_only : Bool
  pub limit : ℤ

abbrev pub default_lookup_limit : ℕ
default_lookup_limit = 25

-- `candidate`
pub record Candidate : Type 0 where
  pub primary : Text
  pub matched : Text

-- `seen` and `cands` of `Lookup`
pub record Scan : Type 0 where
  pub seen : List Text
  pub cands : List Candidate

abbrev pub empty_scan : Scan
empty_scan = record { seen = []; cands = [] }

-- The limit that applies: a limit that is not positive means the default.
abbrev pub limit_of : ℤ → ℕ
limit_of (pos zero) = default_lookup_limit
limit_of (pos (suc n)) = suc n
limit_of (negsuc n) = default_lookup_limit

-- The prefixes to scan.
unfoldable pub type_prefixes : Text → List SymbolType → List Text
unfolding esc
type_prefixes query [] = []
type_prefixes query (t ∷ ts) =
    (type_idx_prefix ++ (esc t ++ (colon ++ esc query))) ∷ type_prefixes query ts

unfoldable pub lookup_prefixes : Text → List SymbolType → List Text
unfolding esc type_prefixes
lookup_prefixes query [] = (name_idx_prefix ++ esc query) ∷ []
lookup_prefixes query (t ∷ ts) = type_prefixes query (t ∷ ts)

-- `rank` of `sortRecords`
unfoldable pub rank : Text → SymbolRecord → ℕ
rank query r = if r.name == query then 0 else if contains r.aliases query then 1 else 2

-- The order of `sortRecords`
unfoldable pub record_less : Text → SymbolRecord → SymbolRecord → Bool
unfolding rank less ltz
record_less query a b =
    if not (rank query a == rank query b)
    then ltb (rank query a) (rank query b)
    else if not (a.name == b.name)
    then less a.name b.name
    else if not (a.repo_name == b.repo_name)
    then less a.repo_name b.repo_name
    else if not (a.file_path == b.file_path)
    then less a.file_path b.file_path
    else ltz a.start_byte b.start_byte

unfoldable pub sort_records : Text → List SymbolRecord → List SymbolRecord
unfolding record_less sort
sort_records query records = sort (record_less query) records

module _ (db : Backend) where
  -- The body of the scan, at one key. An iterated key has a value in its snapshot, so `missing`
  -- does not occur.
  unfoldable pub scan_key : Bool → Bool → Text → db.State → Text → Scan → Result Scan
  unfolding matched_name
  scan_key typed exact query s k acc = elim (matched_name k typed) [
    | none ↦ ok acc
    | some m ↦ if exact && not (m == query) then ok acc else elim (db.get s k) [
      | found v ↦
          if contains acc.seen (db.to_text v)
          then ok acc
          else ok (record {
            seen = db.to_text v ∷ acc.seen;
            cands = acc.cands ++ (record { primary = db.to_text v; matched = m } ∷ []);
          })
      | missing ↦ ok acc
      | failed e ↦ err e
    ]
  ]

  unfoldable pub scan_keys : Bool → Bool → Text → db.State → List Text → Scan → Result Scan
  unfolding scan_key
  scan_keys typed exact query s [] acc = ok acc
  scan_keys typed exact query s (k ∷ ks) acc =
      scan_key typed exact query s k acc >>= scan_keys typed exact query s ks

  -- The loop over the prefixes.
  unfoldable pub scan_prefixes : Bool → Bool → Text → db.State → List Text → Scan → Result Scan
  unfolding scan_keys
  scan_prefixes typed exact query s [] acc = ok acc
  scan_prefixes typed exact query s (p ∷ ps) acc =
      scan_keys typed exact query s (db.keys s p) acc >>= scan_prefixes typed exact query s ps

  -- The body of the loop over the candidates. A dangling index entry is passed over.
  unfoldable pub fetch_record :
      Text → db.State → Candidate → List SymbolRecord → Result (List SymbolRecord)
  fetch_record repo s c records = elim (db.get s c.primary) [
    | missing ↦ ok records
    | failed e ↦ err e
    | found v ↦ elim (db.unmarshal v) [
      | none ↦ err (message (txt "unexpected end of JSON input"))
      | some rec ↦
          if not (is_empty repo) && not (rec.repo_name == repo)
          then ok records
          else ok (records ++ (rec ∷ []))
    ]
  ]

  unfoldable pub fetch_records :
      Text → db.State → List Candidate → List SymbolRecord → Result (List SymbolRecord)
  unfolding fetch_record
  fetch_records repo s [] records = ok records
  fetch_records repo s (c ∷ cands) records =
      fetch_record repo s c records >>= fetch_records repo s cands

  -- The closure that `Lookup` hands to `db.View`.
  unfoldable pub lookup_view : Text → Filter → db.State → Result (List SymbolRecord)
  unfolding lookup_prefixes scan_prefixes fetch_records
  lookup_view query f s =
      scan_prefixes (not (is_empty f.types)) f.exact_only query s (lookup_prefixes query f.types)
        empty_scan
      >>= λ scanned. fetch_records f.repo s scanned.cands []

  -- `Lookup`
  unfoldable pub lookup : Text → Filter → db.State → Result (List SymbolRecord)
  unfolding lookup_view sort_records trim_space
  lookup name f s =
      let query = trim_space name in
      if is_empty query then err (message (txt "lookup requires a non-empty symbol name")) else do
        records ← wrapped (txt "lookup symbol") (lookup_view query f s)
        ok (take (limit_of f.limit) (sort_records query records))

  -- `scanRecords`
  unfoldable pub scan_records : db.State → List Text → Result (List SymbolRecord)
  scan_records s [] = ok []
  scan_records s (k ∷ ks) =
      let rest = scan_records s ks in
      elim (db.get s k) [
        | missing ↦ rest
        | failed e ↦ err e
        | found v ↦ elim (db.unmarshal v) [
          | none ↦ err (message (txt "unexpected end of JSON input"))
          | some rec ↦ rest >>= λ records. ok (rec ∷ records)
        ]
      ]

  -- `FileSymbols`
  unfoldable pub file_symbols : Text → Text → db.State → Result (List SymbolRecord)
  unfolding scan_records file_symbol_prefix sort ltz
  file_symbols repo file s = do
    records ←
        wrapped (txt "list symbols") (scan_records s (db.keys s (file_symbol_prefix repo file)))
    ok (sort (λ a b. ltz a.start_byte b.start_byte) records)
