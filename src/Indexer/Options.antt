-- ===== src/Indexer/Options.antt =====
-- internal/ast/indexer/indexer.go: `Options`, `New`, `ListRepos` and `toRecord`.
use dotfs_mcp_server.Base.{
  ℕ, Bool, true, false, not, ◌||◌, List, [], ◌∷◌, Text, txt, ◌==◌, bytes_eq, contains, less, sort,
  Result, ok, err, message, wrapped, reject_if, ◌>>=◌, ◌>>◌, ℤ, pos, ltz, if◌then◌else◌,
}
use dotfs_mcp_server.Ast.{SymbolRecord}
use dotfs_mcp_server.Parser.{Registry, Symbol}
use dotfs_mcp_server.Utils.Files.{FileSystem, DirEntry}
use dotfs_mcp_server.Utils.Names.{validate_repo_name}

-- `Options`, and the host's `runtime.NumCPU()`
pub record Options : Type 0 where
  pub workspace_root : Text
  pub max_file_size : ℤ
  pub skip_dirs : List Text
  pub workers : ℤ

-- `Indexer`, without the store
pub record Indexer : Type 0 where
  pub fs : FileSystem
  pub registry : Registry
  pub opts : Options

-- `New`, with the number of the host's CPUs; the store and the registry are never nil here
unfoldable pub new : FileSystem → Registry → Options → ℕ → Result Indexer
new fs registry opts num_cpu = do
  reject_if (opts.workspace_root == []) (message (txt "indexer requires a workspace root"))
  reject_if (not (ltz (pos 0) opts.max_file_size))
      (message (txt "indexer requires a positive max file size"))
  ok (record {
    fs = fs;
    registry = registry;
    opts = record {
      workspace_root = opts.workspace_root;
      max_file_size = opts.max_file_size;
      skip_dirs = opts.skip_dirs;
      workers = if ltz (pos 0) opts.workers then opts.workers else pos num_cpu;
    };
  })

abbrev is_ok : Result (Unit {0}) → Bool
is_ok (ok _) = true
is_ok (err _) = false

-- The loop of `ListRepos`.
unfoldable pub repo_names : List Text → List DirEntry → List Text
repo_names skip [] = []
repo_names skip (d ∷ ds) =
    let rest = repo_names skip ds in
    if not d.is_dir || contains skip d.name || not (is_ok (validate_repo_name d.name))
    then rest
    else d.name ∷ rest

-- `ListRepos`
unfoldable pub list_repos : Indexer → Result (List Text)
list_repos ix = do
  entries ← wrapped (txt "read workspace root") (ix.fs.read_dir ix.opts.workspace_root)
  ok (sort less (repo_names ix.opts.skip_dirs entries))

-- `toRecord`
unfoldable pub to_record : Text → Text → Symbol → SymbolRecord
to_record repo rel_path sym = record {
  repo_name = repo;
  file_path = rel_path;
  language = sym.language;
  symbol_type = sym.symbol_type;
  name = sym.name;
  aliases = sym.aliases;
  parent_scope = sym.parent_scope;
  start_byte = sym.start_byte;
  end_byte = sym.end_byte;
  start_line = sym.start_line;
  end_line = sym.end_line;
  documentation = sym.documentation;
  signature = sym.signature;
  source_code = sym.source_code;
}
