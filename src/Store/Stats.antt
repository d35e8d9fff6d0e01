-- ===== src/Store/Stats.antt =====
-- internal/ast/store/store.go: `Stats`.
pub mod Laws
use dotfs_mcp_server.Base.{
  ℕ, suc, ◌+◌, Bool, true, false, ◌||◌, Option, none, some, List, [], ◌∷◌, ◌++◌, Text, txt, ◌==◌,
  bytes_eq, ltb, length, Dict, lookup, insert, Result, ok, err, Error, message, wrapped,
  if◌then◌else◌,
}
use dotfs_mcp_server.Ast.{SymbolRecord, symbol_function, symbol_method}
use dotfs_mcp_server.Store.Keys.{sym_prefix}
use dotfs_mcp_server.Store.Backend.{Fetched, found, missing, failed, Backend}

-- `RepoStat`
pub record RepoStat : Type 0 where
  pub repo_name : Text
  pub symbols : ℕ
  pub functions : ℕ
  pub languages : Dict Text ℕ
  pub symbol_types : Dict Text ℕ
  pub files : Dict Text ℕ
  pub samples : List Text

abbrev pub Stats : Type 0
Stats = Dict Text RepoStat

abbrev pub max_samples : ℕ
max_samples = 12

abbrev pub empty_stat : Text → RepoStat
empty_stat repo = record {
  repo_name = repo;
  symbols = 0;
  functions = 0;
  languages = [];
  symbol_types = [];
  files = [];
  samples = [];
}

-- `m[k]++`
unfoldable pub bump : Text → Dict Text ℕ → Dict Text ℕ
unfolding lookup insert
bump k m = elim (lookup k m) [ none ↦ insert k 1 m | some n ↦ insert k (suc n) m ]

-- The body of the loop on the statistics of the record's repository.
unfoldable pub count_record : SymbolRecord → RepoStat → RepoStat
unfolding bump
count_record rec stat = record stat {
  symbols = suc stat.symbols;
  functions =
      if rec.symbol_type == symbol_function || rec.symbol_type == symbol_method
      then suc stat.functions
      else stat.functions;
  languages = bump rec.language stat.languages;
  symbol_types = bump rec.symbol_type stat.symbol_types;
  files = bump rec.file_path stat.files;
  samples =
      if ltb (length stat.samples) max_samples
      then stat.samples ++ (rec.name ∷ [])
      else stat.samples;
}

abbrev pub stat_or_empty : Text → Option RepoStat → RepoStat
stat_or_empty repo none = empty_stat repo
stat_or_empty repo (some stat) = stat

unfoldable pub add_record : SymbolRecord → Stats → Stats
unfolding lookup insert count_record
add_record rec stats =
    insert rec.repo_name
      (count_record rec (stat_or_empty rec.repo_name (lookup rec.repo_name stats))) stats

module _ (db : Backend) where
  -- The JSON document under a key; an iterated key is never `missing`.
  abbrev pub read_record : Fetched db.Value → Result SymbolRecord
  read_record (found v) = elim (db.unmarshal v) [
    | none ↦ err (message (txt "unexpected end of JSON input"))
    | some rec ↦ ok rec
  ]
  read_record missing = err (message (txt "Key not found"))
  read_record (failed e) = err e

  unfoldable pub stats_loop : db.State → List Text → Stats → Result Stats
  unfolding add_record
  stats_loop s [] acc = ok acc
  stats_loop s (k ∷ ks) acc = elim (read_record (db.get s k)) [
    | err e ↦ err e
    | ok rec ↦ stats_loop s ks (add_record rec acc)
  ]

  -- `Stats`
  unfoldable pub stats : db.State → Result Stats
  unfolding stats_loop
  stats s = wrapped (txt "aggregate cache statistics") (stats_loop s (db.keys s sym_prefix) [])
