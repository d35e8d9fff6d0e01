-- ===== src/Store/Stats/Laws.antt =====
-- internal/ast/store/store.go: the statistics agree with the records and with each other.
use Prim.Native.Nat.{min}
use mathlib.Core.Path.{subst}
use mathlib.Core.Logic.{if_pos, if_neg}
use dotfs_mcp_server.Base.{
  ℕ, suc, ◌+◌, ◌≤◌, ◌≡◌, refl, ◌∙◌, ap, inl, inr, Option, none, some, List, [], ◌∷◌, Text, txt,
  ◌==◌, bytes_eq, length, length-append, Dict, lookup, insert, lookup-insert, Result, ok, err,
  Ensures, Ensures-ok, Ensures-wrapped, Ensures-map, sym, Result-cases, Option-cases, arith,
  if◌then◌else◌,
}
use dotfs_mcp_server.Ast.{SymbolRecord}
use dotfs_mcp_server.Store.Keys.{sym_prefix}
use dotfs_mcp_server.Store.Backend.{Backend}
use dotfs_mcp_server.Store.Stats.{
  RepoStat, Stats, max_samples, empty_stat, stat_or_empty, bump, count_record, add_record,
  read_record, stats_loop, stats,
}

-- The sum of the counts.
abbrev pub total : Dict Text ℕ → ℕ
total [] = 0
total ((k, n) ∷ m) = n + total m

total-insert_new :
    (k : Text) (m : Dict Text ℕ) → lookup k m ≡ none → total (insert k 1 m) ≡ suc (total m)
unfolding lookup insert
total-insert_new k [] h = omega arith
total-insert_new k ((j, n) ∷ m) h = ground (arith, total-insert_new k m)

total-insert_old :
    (k : Text) (m : Dict Text ℕ) (c : ℕ)
    → lookup k m ≡ some c
    → total (insert k (suc c) m) ≡ suc (total m)
unfolding lookup insert
total-insert_old k [] c h = cc
total-insert_old k ((j, n) ∷ m) c h = ground (arith, total-insert_old k m c)

total-bump : (k : Text) (m : Dict Text ℕ) → total (bump k m) ≡ suc (total m)
unfolding bump
total-bump k m = elim (Option-cases (lookup k m)) [
  | inl e ↦ rw (e, bump) (total-insert_new k m e)
  | inr (c, e) ↦ rw (e, bump) (total-insert_old k m c e)
]

-- Every symbol is counted once in each of the three tallies, and named in the samples up to the cap.
pub record IsConsistent (stat : RepoStat) : Type 0 where
  pub languages : total stat.languages ≡ stat.symbols
  pub symbol_types : total stat.symbol_types ≡ stat.symbols
  pub files : total stat.files ≡ stat.symbols
  pub functions : stat.functions ≤ stat.symbols
  pub samples : length stat.samples ≡ min max_samples stat.symbols

empty_stat-IsConsistent : (repo : Text) → IsConsistent (empty_stat repo)
empty_stat-IsConsistent repo = omega arith

count_record-IsConsistent :
    (rec : SymbolRecord) (stat : RepoStat)
    → IsConsistent stat
    → IsConsistent (count_record rec stat)
unfolding count_record
count_record-IsConsistent rec stat h = ground (
  arith,
  total-bump rec.language stat.languages,
  total-bump rec.symbol_type stat.symbol_types,
  total-bump rec.file_path stat.files,
  length-append stat.samples (rec.name ∷ []),
)

-- The number of symbols that are counted for a repository, if it has an entry.
abbrev symbols_in : Option RepoStat → ℕ
symbols_in none = 0
symbols_in (some stat) = stat.symbols

abbrev pub symbols_of : Text → Stats → ℕ
symbols_of repo st = symbols_in (lookup repo st)

abbrev ConsistentOption : Option RepoStat → Type 0
ConsistentOption none = Unit
ConsistentOption (some stat) = IsConsistent stat

stat_or_empty-IsConsistent :
    (repo : Text) (o : Option RepoStat) → ConsistentOption o → IsConsistent (stat_or_empty repo o)
stat_or_empty-IsConsistent repo none h = empty_stat-IsConsistent repo
stat_or_empty-IsConsistent repo (some stat) h = h

symbols-count_record :
    (rec : SymbolRecord) (repo : Text) (o : Option RepoStat)
    → (count_record rec (stat_or_empty repo o)).symbols ≡ suc (symbols_in o)
unfolding count_record
symbols-count_record rec repo none = refl
symbols-count_record rec repo (some stat) = refl

abbrev AllConsistent : Stats → Type 0
AllConsistent st = (repo : Text) → ConsistentOption (lookup repo st)

lookup-add_record :
    (rec : SymbolRecord) (st : Stats) (repo : Text)
    → lookup repo (add_record rec st) ≡ (
        if repo == rec.repo_name
        then some (count_record rec (stat_or_empty rec.repo_name (lookup rec.repo_name st)))
        else lookup repo st)
unfolding add_record
lookup-add_record rec st repo = lookup-insert repo rec.repo_name _ st

add_record-AllConsistent :
    (rec : SymbolRecord) (st : Stats) → AllConsistent st → AllConsistent (add_record rec st)
add_record-AllConsistent rec st h repo = elim (bytes_eq.dec repo rec.repo_name) [
  | yes e ↦ rw (lookup-add_record rec st repo) (
      rw (if_pos _ e) (
        count_record-IsConsistent rec (stat_or_empty rec.repo_name (lookup rec.repo_name st))
          (stat_or_empty-IsConsistent rec.repo_name (lookup rec.repo_name st) (h rec.repo_name))))
  | no e ↦ rw (lookup-add_record rec st repo) (rw (if_neg _ e) (h repo))
]

symbols_of-add_record :
    (rec : SymbolRecord) (st : Stats) (repo : Text)
    → symbols_of repo (add_record rec st)
      ≡ (if repo == rec.repo_name then suc (symbols_of repo st) else symbols_of repo st)
symbols_of-add_record rec st repo = elim (bytes_eq.dec repo rec.repo_name) [
  | yes e ↦ rw (lookup-add_record rec st repo) (
      rw (if_pos _ e) (
        symbols-count_record rec rec.repo_name (lookup rec.repo_name st)
        ∙ ap (λ r. suc (symbols_of r st)) (sym e)))
  | no e ↦ rw (lookup-add_record rec st repo) (rw (if_neg _ e) refl)
]

module _ (db : Backend) (s : db.State) where
  -- The number of keys that hold the document of a record of the repository.
  abbrev of_repo : Text → Result SymbolRecord → ℕ
  of_repo repo (ok rec) = if repo == rec.repo_name then 1 else 0
  of_repo repo (err e) = 0

  abbrev pub documents_of : Text → List Text → ℕ
  documents_of repo [] = 0
  documents_of repo (k ∷ ks) = of_repo repo (read_record db (db.get s k)) + documents_of repo ks

  abbrev Tallied : List Text → Stats → Stats → Type 0
  Tallied ks acc st =
      AllConsistent st
      × ((repo : Text) → symbols_of repo st ≡ documents_of repo ks + symbols_of repo acc)

  stats_loop-Tallied :
      (ks : List Text) (acc : Stats)
      → AllConsistent acc
      → Ensures (Tallied ks acc) (stats_loop db s ks acc)
  unfolding stats_loop
  stats_loop-Tallied [] acc h = (h, λ repo. omega arith)
  stats_loop-Tallied (k ∷ ks) acc h = elim (Result-cases (read_record db (db.get s k))) [
    | inl (e, g) ↦ rw (g, stats_loop) tt
    | inr (rec, g) ↦
        rw (g, stats_loop)
          (Ensures-map (Tallied ks (add_record rec acc)) (Tallied (k ∷ ks) acc)
            (stats_loop db s ks (add_record rec acc))
            (stats_loop-Tallied ks (add_record rec acc) (add_record-AllConsistent rec acc h))
            (λ st t.
              (t.0, λ repo. rw g (ground (arith, t.1 repo, symbols_of-add_record rec acc repo)))))
  ]

  -- The statistics of a repository count the cached documents of its records, and are consistent.
  pub stats-IsConsistent :
      (st : Stats) (repo : Text) (stat : RepoStat)
      → stats db s ≡ ok st
      → lookup repo st ≡ some stat
      → IsConsistent stat × (stat.symbols ≡ documents_of repo (db.keys s sym_prefix))
  unfolding stats
  stats-IsConsistent st repo stat h e =
      let t =
        Ensures-ok (Tallied (db.keys s sym_prefix) []) (stats db s) st
          (Ensures-wrapped (Tallied (db.keys s sym_prefix) []) (txt "aggregate cache statistics")
            (stats_loop db s (db.keys s sym_prefix) [])
            (stats_loop-Tallied (db.keys s sym_prefix) [] (λ r. unfold lookup in tt)))
          h in
      (
        subst ConsistentOption e (t.0 repo),
        ap symbols_in (sym e) ∙ t.1 repo ∙ unfold lookup in omega arith,
      )
