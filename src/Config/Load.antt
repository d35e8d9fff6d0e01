-- ===== src/Config/Load.antt =====
-- internal/config/config.go and cmd/main.go: `Load`, `Validate` and what `main` makes of them.
use dotfs_mcp_server.Base.{
  ℕ, ◌*◌, Bool, true, not, ◌&&◌, none, some, List, [], ◌∷◌, Text, txt, bytes_eq, ltz, trim_space,
  is_empty, ℤ, pos, Result, ok, err, message, wrapped, ◌>>=◌, ◌>>◌, reject_if, if◌then◌else◌,
}
use dotfs_mcp_server.Utils.Paths.{is_abs, clean, join_path}
use dotfs_mcp_server.Utils.Files.{FileSystem}
use dotfs_mcp_server.Config.Values.{
  Environment, env_string, env_list, env_int64, env_bool, env_duration,
}

abbrev pub default_cache_dir : Text
default_cache_dir = txt "/tmp/dotfs-agent-knowledge"

abbrev pub default_log_path : Text
default_log_path = txt "/var/log/dotfs-mcp-server.log"

abbrev pub default_http_addr : Text
default_http_addr = txt "127.0.0.1:8080"

-- 2 MiB
abbrev pub default_max_file_size : ℤ
default_max_file_size = pos 2097152

abbrev pub default_server_name : Text
default_server_name = txt "dotfs-mcp-server"

abbrev pub default_server_version : Text
default_server_version = txt "1.0.0"

-- Nanoseconds
abbrev pub seconds : ℕ → ℤ
seconds n = pos (n * 1000000000)

abbrev pub default_request_timeout : ℤ
default_request_timeout = seconds 5

abbrev pub default_init_timeout : ℤ
default_init_timeout = seconds 45

abbrev pub default_gopls_path : Text
default_gopls_path = txt "gopls"

abbrev pub default_clangd_path : Text
default_clangd_path = txt "clangd"

-- `skipDirs`
abbrev pub skip_dirs : List Text
skip_dirs =
    txt ".git"
    ∷ txt ".svn"
    ∷ txt ".hg"
    ∷ txt "node_modules"
    ∷ txt "vendor"
    ∷ txt "third_party"
    ∷ txt "build"
    ∷ txt "dist"
    ∷ txt "out"
    ∷ txt ".idea"
    ∷ txt ".vscode"
    ∷ txt "dotfs-mcp-server"
    ∷ []

-- `LSPConfig`
pub record LspConfig : Type 0 where
  pub gopls_path : Text
  pub clangd_path : Text
  pub clangd_args : List Text
  pub request_timeout : ℤ
  pub init_timeout : ℤ

-- `Config`
pub record Config : Type 0 where
  pub workspace_root : Text
  pub cache_dir : Text
  pub http_addr : Text
  pub api_token : Text
  pub max_file_size : ℤ
  pub index_on_start : Bool
  pub enable_http : Bool
  pub skip_dirs : List Text
  pub gc_interval : ℤ
  pub log_path : Text
  pub server_name : Text
  pub server_version : Text
  pub lsp : LspConfig

-- `Validate`
unfoldable pub validate : FileSystem → Config → Result (Unit {0})
unfolding ltz trim_space
validate fs c = do
  info ← wrapped (txt "workspace root is not readable") (fs.stat c.workspace_root)
  reject_if (not info.is_dir) (message (txt "workspace root is not a directory"))
  reject_if (not (ltz (pos 0) c.max_file_size))
      (message (txt "DOTFS_MAX_FILE_SIZE must be greater than zero"))
  reject_if (not (ltz (pos 0) c.gc_interval))
      (message (txt "DOTFS_GC_INTERVAL must be greater than zero"))
  reject_if (c.enable_http && is_empty (trim_space c.http_addr))
      (message (txt "DOTFS_HTTP_ADDR must not be empty when the management API is enabled"))
  ok tt

module _ (env : Environment) where
  abbrev pub joined : Text → Result Text → Result Text
  joined path (err e) = err e
  joined path (ok wd) = ok (join_path wd path)

  -- `filepath.Abs`
  unfoldable pub abs_path : Text → Result Text
  unfolding is_abs clean join_path
  abs_path path = if is_abs path then ok (clean path) else joined path env.getwd

  -- `os.Getenv`
  abbrev pub getenv : Text → Text
  getenv key = elim (env.variable key) [ none ↦ [] | some v ↦ v ]

  -- The settings: those that may fail to be read are arguments.
  abbrev pub configured : ℤ → Bool → Bool → ℤ → ℤ → ℤ → Text → Text → Config
  configured max_file_size index_on_start enable_http gc_interval request_timeout init_timeout
        workspace_root cache_dir =
      record {
        workspace_root = workspace_root;
        cache_dir = cache_dir;
        http_addr = env_string env (txt "DOTFS_HTTP_ADDR") default_http_addr;
        api_token = getenv (txt "DOTFS_API_TOKEN");
        max_file_size = max_file_size;
        index_on_start = index_on_start;
        enable_http = enable_http;
        skip_dirs = env_list env (txt "DOTFS_SKIP_DIRS") skip_dirs;
        gc_interval = gc_interval;
        log_path = env_string env (txt "DOTFS_LOG_PATH") default_log_path;
        server_name = env_string env (txt "DOTFS_SERVER_NAME") default_server_name;
        server_version = env_string env (txt "DOTFS_SERVER_VERSION") default_server_version;
        lsp = record {
          gopls_path = env_string env (txt "DOTFS_GOPLS_PATH") default_gopls_path;
          clangd_path = env_string env (txt "DOTFS_CLANGD_PATH") default_clangd_path;
          clangd_args = env_list env (txt "DOTFS_CLANGD_ARGS") [];
          request_timeout = request_timeout;
          init_timeout = init_timeout;
        };
      }

  -- What `Load` reads, in its order.
  unfoldable pub read_config : Result Config
  unfolding env_string env_list env_int64 env_bool env_duration abs_path
  read_config = do
    max_file_size ← env_int64 env (txt "DOTFS_MAX_FILE_SIZE") default_max_file_size
    index_on_start ← env_bool env (txt "DOTFS_INDEX_ON_START") true
    enable_http ← env_bool env (txt "DOTFS_HTTP_ENABLED") true
    gc_interval ← env_duration env (txt "DOTFS_GC_INTERVAL") (seconds 600)
    request_timeout ← env_duration env (txt "DOTFS_LSP_TIMEOUT") default_request_timeout
    init_timeout ← env_duration env (txt "DOTFS_LSP_INIT_TIMEOUT") default_init_timeout
    workspace_root ←
        wrapped (txt "resolve DOTFS_WORKSPACE_ROOT")
          (abs_path (env_string env (txt "DOTFS_WORKSPACE_ROOT") []))
    cache_dir ←
        wrapped (txt "resolve DOTFS_CACHE_DB")
          (abs_path (env_string env (txt "DOTFS_CACHE_DB") default_cache_dir))
    ok (
        configured max_file_size index_on_start enable_http gc_interval request_timeout init_timeout
          workspace_root cache_dir)

  -- `Load`: the configuration, and the error of `Validate`, of which its caller reads the error first.
  unfoldable pub load : FileSystem → Result Config
  unfolding read_config validate
  load fs = do c ← read_config; validate fs c; ok c

  -- What `main` does behind `flag.Parse`: the configuration that it goes on with.
  unfoldable pub boot : FileSystem → Text → Result Config
  unfolding load
  boot fs workspace = do
    c ← load fs
    let root = if is_empty workspace then c.workspace_root else workspace
    reject_if (is_empty root)
        (message (txt "workspace root directory must be specified with -workspace"))
    ok (record c { workspace_root = root })
