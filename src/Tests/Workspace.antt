-- ===== src/Tests/Workspace.antt =====
-- Runs of internal/ast/indexer and internal/utils on a host with one repository.
use dotfs_mcp_server.Indexer.Files.Laws.{Collected, collect_files-Collected}
use dotfs_mcp_server.Indexer.Files.{
  Walk, visit_file, passes_filter, parse_file, is_skipped, walk_node, collect_files, Node, item,
  tree, empty,
}
use dotfs_mcp_server.Base.{
  ◌≢◌, ◌↔◌, trim_prefix, nat_eq, lookup, insert, ltz, decimalz, trim_left_reversed, trim_left,
  to_lower, split, join, zeros, padded, lt_acc, emit, decimal, occurs, trim_space, ◌≡◌, refl, true,
  false, List, [], ◌∷◌, ◌++◌, Text, txt, none, some, ok, err, message, pos, has_prefix, contains,
  bytes_eq,
}
use dotfs_mcp_server.Indexer.Cycle.Exact.{put_results, index_repo-exact}
use dotfs_mcp_server.Indexer.Cycle.Laws.{crawled}
use dotfs_mcp_server.Indexer.Cycle.Others.{index_repo-others}
use dotfs_mcp_server.Store.Backend.Memory.{keys_under, memory, memory-IsLawful, Cells, document}
use dotfs_mcp_server.Xref.Source.{split_lines, replace_crlf}
use dotfs_mcp_server.Indexer.Snippet.{
  render, number_lines, last_of, capped_to, first_of, read_snippet,
}
use dotfs_mcp_server.Utils.Paths.{
  ext_loop, ext, clean_step, clean_loop, join_path, strip_common, way, rel_clean, rel, clean,
  elements, is_abs,
}
use dotfs_mcp_server.Utils.Names.{
  is_name_char, is_alnum, all_name_chars, matches_name, validate_repo_name,
}
use dotfs_mcp_server.Store.Put.{write_indexes, unchanged, set_all, put_txn, put_symbol}
use dotfs_mcp_server.Store.Prune.{
  stale_entries, prune_repo, prune_batches, delete_entries, delete_all,
}
use dotfs_mcp_server.Store.Keys.{
  type_index_key, offset_token, name_keys, name_index_key, index_keys, file_index_key, esc,
  primary_key, repo_symbol_prefix,
}
use dotfs_mcp_server.Parser.{supports, engine_for, Symbol, Engine, new_registry}
use dotfs_mcp_server.Indexer.Options.{to_record, Indexer}
use dotfs_mcp_server.Indexer.Cycle.{
  write_symbols, write_results, write_outcome, close_cycle, index_repo,
}
use dotfs_mcp_server.Ast.{
  validate, symbol_type_valid, language_valid, blank, SymbolRecord, symbol_function, language_c,
}
use dotfs_mcp_server.Ast.Fingerprint.{framed, fingerprint_input, fingerprint}
use dotfs_mcp_server.Store.Backend.{missing}
use dotfs_mcp_server.Utils.Files.{Info, DirEntry}
use dotfs_mcp_server.Utils.Safe.{safe_repo_path, is_within_repo, safe_repo_path_inside}
use dotfs_mcp_server.Indexer.Snippet.Laws.{IsSnippet, read_snippet-IsSnippet}
use dotfs_mcp_server.Tests.Data.{host, add_record}

abbrev symbol_add : Symbol
symbol_add = record {
  name = txt "add";
  aliases = [];
  symbol_type = symbol_function;
  parent_scope = [];
  signature = txt "int add()";
  documentation = [];
  source_code = txt "int add()";
  language = language_c;
  start_byte = pos 0;
  end_byte = pos 9;
  start_line = pos 1;
  end_line = pos 1;
}

-- An engine that finds one function in every file.
abbrev engine : Engine
engine = record {
  language = language_c;
  extensions = txt ".c" ∷ [];
  parse = λ path src. ok (some (symbol_add ∷ []));
  prefilter = λ src. true;
}

abbrev pub indexer : Indexer
indexer = record {
  fs = host;
  registry = new_registry (engine ∷ []);
  opts = record {
    workspace_root = txt "/w";
    max_file_size = pos 100;
    skip_dirs = [];
    workers = pos 1;
  };
}

abbrev directory : Text → DirEntry
directory name = record { name = name; is_dir = true; is_symlink = false; info = err (message []) }

abbrev file : Text → DirEntry
file name = record {
  name = name;
  is_dir = false;
  is_symlink = false;
  info = ok (record { is_dir = false; size = 9 });
}

abbrev pub tree_at : Text → Node
tree_at path =
    item path (directory (txt "demo"))
      (tree (item (txt "/w/demo/a.c") (file (txt "a.c")) empty) empty)

-- A record of a file that is gone, and one of another repository.
abbrev gone_record : SymbolRecord
gone_record = record add_record { file_path = txt "b.c" }

abbrev other_record : SymbolRecord
other_record = record add_record { repo_name = txt "other" }

abbrev before : Cells
before =
    (primary_key gone_record, document gone_record)
    ∷ (primary_key other_record, document other_record)
    ∷ []

index_run :
    (index_repo memory indexer (λ path. none) tree_at (λ rs. rs) none (txt "demo") before).0.1
    ≡ none
unfolding index_repo safe_repo_path validate_repo_name blank trim_space bytes_eq occurs matches_name
    is_within_repo rel rel_clean clean join_path way strip_common elements collect_files walk_node
    fingerprint fingerprint_input framed language_valid symbol_type_valid validate decimal emit
    lt_acc padded zeros has_prefix join split to_lower trim_left trim_left_reversed decimalz ltz
    insert lookup nat_eq close_cycle write_outcome write_results write_symbols is_skipped parse_file
    passes_filter visit_file to_record engine_for supports esc file_index_key index_keys
    name_index_key name_keys offset_token primary_key repo_symbol_prefix type_index_key delete_all
    delete_entries prune_batches prune_repo stale_entries put_symbol put_txn set_all unchanged
    write_indexes all_name_chars is_alnum is_name_char clean_loop clean_step ext ext_loop is_abs
    keys_under new_registry
index_run = refl

add_is_demo : has_prefix (repo_symbol_prefix (txt "demo")) (primary_key add_record) ≡ true
unfolding has_prefix repo_symbol_prefix primary_key
add_is_demo = refl

index_repo-exact_example :
    (memory.get
        (index_repo memory indexer (λ path. none) tree_at (λ rs. rs) none (txt "demo") before).1
        (primary_key add_record)
      ≢ missing)
    ↔ (contains
          (put_results memory
            (txt "demo")
            (crawled indexer (λ path. none) tree_at (λ rs. rs) (txt "demo"))
            before).0
          (primary_key add_record)
        ≡ true)
index_repo-exact_example =
    index_repo-exact memory memory-IsLawful indexer (λ path. none) tree_at (λ rs. rs) none
      (txt "demo") before (primary_key add_record) index_run add_is_demo

index_repo-others_example :
    memory.get
      (index_repo memory indexer (λ path. none) tree_at (λ rs. rs) none (txt "demo") before).1
      (primary_key other_record)
    ≡ memory.get before (primary_key other_record)
unfolding has_prefix primary_key repo_symbol_prefix
index_repo-others_example =
    index_repo-others memory memory-IsLawful indexer (λ path. none) tree_at (λ rs. rs) none
      (txt "demo") before (primary_key other_record) refl refl

snippet_run :
    read_snippet indexer (txt "demo") (txt "a.c") (pos 1) (pos 5)
    ≡ ok (txt "demo/a.c:1-1" ++ (b'\n' ∷ txt "     1 | int add()" ++ (b'\n' ∷ [])))
unfolding read_snippet safe_repo_path validate_repo_name blank trim_space bytes_eq occurs
    matches_name is_within_repo rel rel_clean clean join_path way strip_common elements ltz first_of
    decimal emit lt_acc has_prefix join split trim_left trim_left_reversed trim_prefix nat_eq
    capped_to last_of number_lines render all_name_chars is_alnum is_name_char clean_loop clean_step
    is_abs replace_crlf split_lines
snippet_run = refl

read_snippet-IsSnippet_example :
    IsSnippet indexer
      (txt "demo")
      (txt "a.c")
      (txt "demo/a.c:1-1" ++ (b'\n' ∷ txt "     1 | int add()" ++ (b'\n' ∷ [])))
read_snippet-IsSnippet_example =
    read_snippet-IsSnippet indexer (txt "demo") (txt "a.c") (pos 1) (pos 5)
      (txt "demo/a.c:1-1" ++ (b'\n' ∷ txt "     1 | int add()" ++ (b'\n' ∷ []))) snippet_run

safe_repo_path_run : safe_repo_path host (txt "/w") (txt "demo") ≡ ok (txt "/w/demo")
unfolding safe_repo_path validate_repo_name blank trim_space bytes_eq occurs matches_name
    is_within_repo rel rel_clean clean join_path way strip_common elements
safe_repo_path_run = refl

root-is_abs : is_abs (clean (txt "/w")) ≡ true
unfolding is_abs clean way elements bytes_eq
root-is_abs = refl

safe_repo_path_inside_example :
    ((below : List Text) × (elements (clean (txt "/w/demo"))
        ≡ elements (clean (txt "/w")) ++ below))
    × ((info : Info) × (host.stat (txt "/w/demo") ≡ ok info) × (info.is_dir ≡ true))
safe_repo_path_inside_example =
    safe_repo_path_inside host (txt "/w") (txt "demo") (txt "/w/demo") (txt "/w") refl root-is_abs
      safe_repo_path_run

abbrev demo_walk : Walk
demo_walk = record { files = txt "/w/demo/a.c" ∷ []; scanned = 1 }

walk_run :
    collect_files indexer (λ path. none) (txt "/w/demo") (tree_at (txt "/w/demo")) ≡ ok demo_walk
unfolding collect_files walk_node is_skipped visit_file supports engine_for lookup new_registry
    insert bytes_eq ltz
walk_run = refl

collect_files-Collected_example : Collected indexer demo_walk
collect_files-Collected_example =
    collect_files-Collected indexer (λ path. none) (txt "/w/demo") (tree_at (txt "/w/demo"))
      demo_walk walk_run
