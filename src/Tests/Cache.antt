-- ===== src/Tests/Cache.antt =====
-- Runs of internal/ast/store/store.go on a database in memory.
use dotfs_mcp_server.Base.{
  ◌≡◌, is_utf8, refl, true, false, [], ◌∷◌, txt, bytes_eq, nat_eq, has_prefix, contains, some, ok,
  pos, arith, inr, Any, Ensures, insert, lookup, trim_space, ltz, occurs, if◌then◌else◌,
}
use dotfs_mcp_server.Ast.{validate, blank, language_c, symbol_function}
use dotfs_mcp_server.Ast.Fingerprint.{fingerprint}
use dotfs_mcp_server.Store.Keys.{primary_key, index_keys, repo_symbol_prefix, sym_prefix}
use dotfs_mcp_server.Store.Backend.{missing, IsUtf8, all_utf8}
use dotfs_mcp_server.Store.Backend.Memory.{memory, memory-IsLawful, Cells, keys_under}
use dotfs_mcp_server.Store.Put.{put_symbol, write_indexes}
use dotfs_mcp_server.Store.Put.Laws.{PutOutcome, put_symbol_outcome, put_symbol_again}
use dotfs_mcp_server.Store.Lookup.{Filter}
use dotfs_mcp_server.Store.Lookup.Laws.{IsAnswer, lookup-IsAnswer}
use dotfs_mcp_server.Store.Lookup.Laws.Complete.{lookup-put, lookup-lost_name}
use dotfs_mcp_server.Store.Prune.{prune_repo}
use dotfs_mcp_server.Store.Prune.Laws.{prune_repo_removes, prune_repo_keeps}
use dotfs_mcp_server.Store.Stats.{RepoStat, stats}
use dotfs_mcp_server.Store.Stats.Laws.{IsConsistent, documents_of, stats-IsConsistent}
use dotfs_mcp_server.Tests.Data.{add_record, renamed_record}
use dotfs_mcp_server.Store.Lookup

abbrev pub stored : Cells
stored =
    write_indexes memory add_record (primary_key add_record)
      (memory.set [] (primary_key add_record) (memory.marshal add_record))

put_symbol_outcome_example :
    PutOutcome memory memory-IsLawful add_record [] (put_symbol memory add_record [])
put_symbol_outcome_example = put_symbol_outcome memory memory-IsLawful add_record []

pub stored_run : put_symbol memory add_record [] ≡ (ok (primary_key add_record, true), stored)
unfolding put_symbol validate trim_space bytes_eq ltz lookup
stored_run = refl

pub add_record-IsUtf8 : IsUtf8 add_record
unfolding all_utf8 is_utf8
add_record-IsUtf8 = refl

put_symbol_again_example :
    ((put_symbol memory add_record stored).0 ≡ ok (primary_key add_record, false))
    × (memory.get (put_symbol memory add_record stored).1 (primary_key add_record)
        ≡ memory.get stored (primary_key add_record))
put_symbol_again_example =
    put_symbol_again memory memory-IsLawful add_record [] stored (primary_key add_record) true
      (primary_key add_record) add_record-IsUtf8 stored_run refl

-- The alias is gone from the record that replaces the first one.
abbrev replaced : Cells
replaced =
    write_indexes memory renamed_record (primary_key renamed_record)
      (memory.set stored (primary_key renamed_record) (memory.marshal renamed_record))

replaced_run :
    put_symbol memory renamed_record stored ≡ (ok (primary_key renamed_record, true), replaced)
unfolding put_symbol validate trim_space bytes_eq ltz lookup write_indexes insert fingerprint
    index_keys primary_key
replaced_run = refl

renamed_record-IsUtf8 : IsUtf8 renamed_record
unfolding all_utf8 is_utf8
renamed_record-IsUtf8 = refl

abbrev any_filter : Filter
any_filter = record { repo = []; types = []; exact_only = true; limit = pos 0 }

lookup-IsAnswer_example :
    Ensures
      (IsAnswer memory (txt "add") any_filter stored)
      (Lookup.lookup memory (txt "add") any_filter stored)
lookup-IsAnswer_example = lookup-IsAnswer memory (txt "add") any_filter stored

found_by_name : Lookup.lookup memory (txt "plus") any_filter stored ≡ ok (add_record ∷ [])
unfolding Lookup.lookup keys_under write_indexes index_keys bytes_eq insert primary_key lookup
found_by_name = refl

lookup-put_example :
    Any (λ r. fingerprint memory.digest r ≡ fingerprint memory.digest add_record) (add_record ∷ [])
unfolding trim_space bytes_eq occurs blank
lookup-put_example =
    lookup-put memory memory-IsLawful add_record [] stored (primary_key add_record) true
      (txt "plus") (txt "plus") any_filter (add_record ∷ []) add_record-IsUtf8 stored_run refl refl
      refl refl refl refl found_by_name (omega arith)

found_by_lost_name :
    Lookup.lookup memory (txt "plus") any_filter replaced ≡ ok (renamed_record ∷ [])
unfolding Lookup.lookup keys_under write_indexes index_keys insert bytes_eq primary_key lookup
found_by_lost_name = refl

lookup-lost_name_example :
    Any
      (λ r. fingerprint memory.digest r ≡ fingerprint memory.digest renamed_record)
      (renamed_record ∷ [])
unfolding trim_space bytes_eq occurs blank primary_key index_keys
lookup-lost_name_example =
    lookup-lost_name memory memory-IsLawful add_record renamed_record [] stored replaced
      (primary_key add_record) (primary_key renamed_record) true true (txt "plus") (txt "plus")
      any_filter (renamed_record ∷ []) renamed_record-IsUtf8 stored_run replaced_run refl refl refl
      refl refl refl refl refl found_by_lost_name (omega arith)

prune_repo_removes_example :
    memory.get (prune_repo memory (txt "demo") [] stored).1 (primary_key add_record) ≡ (
      if contains [] (primary_key add_record)
      then memory.get stored (primary_key add_record)
      else missing)
unfolding prune_repo has_prefix bytes_eq nat_eq keys_under write_indexes index_keys trim_space
    insert primary_key
prune_repo_removes_example =
    prune_repo_removes memory memory-IsLawful (txt "demo") [] stored (primary_key add_record) refl
      refl

prune_repo_keeps_example :
    memory.get (prune_repo memory (txt "other") [] stored).1 (primary_key add_record)
    ≡ memory.get stored (primary_key add_record)
unfolding has_prefix bytes_eq nat_eq primary_key repo_symbol_prefix
prune_repo_keeps_example =
    prune_repo_keeps memory memory-IsLawful (txt "other") [] stored (primary_key add_record) refl
      (inr refl)

abbrev demo_stat : RepoStat
demo_stat = record {
  repo_name = txt "demo";
  symbols = 1;
  functions = 1;
  languages = (language_c, 1) ∷ [];
  symbol_types = (symbol_function, 1) ∷ [];
  files = (txt "a.c", 1) ∷ [];
  samples = txt "add" ∷ [];
}

stats_run : stats memory stored ≡ ok ((txt "demo", demo_stat) ∷ [])
unfolding stats keys_under write_indexes index_keys trim_space bytes_eq primary_key has_prefix
stats_run = refl

demo_stat_found : lookup (txt "demo") ((txt "demo", demo_stat) ∷ []) ≡ some demo_stat
unfolding lookup bytes_eq
demo_stat_found = refl

stats-IsConsistent_example :
    IsConsistent demo_stat
    × (demo_stat.symbols ≡ documents_of memory stored (txt "demo") (memory.keys stored sym_prefix))
stats-IsConsistent_example =
    stats-IsConsistent memory stored ((txt "demo", demo_stat) ∷ []) (txt "demo") demo_stat stats_run
      demo_stat_found
