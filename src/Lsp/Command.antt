-- ===== src/Lsp/Command.antt =====
-- internal/lsp/manager.go: what a language server needs, and its command line.
pub mod Laws
use dotfs_mcp_server.Base.{
  Bool, true, false, not, ◌&&◌, ◌||◌, Option, none, some, List, [], ◌∷◌, ◌++◌, Text, txt, ◌==◌,
  bytes_eq, Result, ok, err, wrap, sentinel, no_go_module, no_compile_commands,
  unsupported_language, if◌then◌else◌,
}
use dotfs_mcp_server.Ast.{Language, language_c, language_go}
use dotfs_mcp_server.Utils.Paths.{join_path}
use dotfs_mcp_server.Utils.Files.{FileSystem, Info, DirEntry}
use dotfs_mcp_server.Config.Load.{LspConfig}

-- The places of a compilation database
abbrev pub candidates : List Text
candidates = [] ∷ txt "build" ∷ txt "out" ∷ txt "_build" ∷ txt "cmake-build-debug" ∷ []

module _ (fs : FileSystem) where
  abbrev is_file : Result Info → Bool
  is_file (err e) = false
  is_file (ok info) = not info.is_dir

  -- `fileExists`
  unfoldable pub file_exists : Text → Bool
  file_exists path = is_file (fs.stat path)

  -- The loop over the entries of the repository
  unfoldable pub nested_module : Text → List DirEntry → Bool
  unfolding file_exists join_path
  nested_module repo_dir [] = false
  nested_module repo_dir (e ∷ es) =
      (e.is_dir && file_exists (join_path (join_path repo_dir e.name) (txt "go.mod")))
      || nested_module repo_dir es

  abbrev listed_module : Text → Result (List DirEntry) → Bool
  listed_module repo_dir (err e) = false
  listed_module repo_dir (ok entries) = nested_module repo_dir entries

  -- `hasGoModule`
  unfoldable pub has_go_module : Text → Bool
  unfolding file_exists nested_module join_path
  has_go_module repo_dir =
      file_exists (join_path repo_dir (txt "go.mod"))
      || listed_module repo_dir (fs.read_dir repo_dir)

  -- Is there a compilation database in a directory of the repository?
  unfoldable pub has_database : Text → Text → Bool
  unfolding file_exists join_path
  has_database repo_dir candidate =
      file_exists (join_path (join_path repo_dir candidate) (txt "compile_commands.json"))

  unfoldable pub first_database : Text → List Text → Option Text
  unfolding has_database join_path
  first_database repo_dir [] = none
  first_database repo_dir (c ∷ cs) =
      let rest = first_database repo_dir cs in
      if has_database repo_dir c then some (join_path repo_dir c) else rest

  -- `compileCommandsDir`
  unfoldable pub compile_commands_dir : Text → Option Text
  unfolding first_database
  compile_commands_dir repo_dir = first_database repo_dir candidates

  module _ (cfg : LspConfig) where
    -- An executable and its arguments
    abbrev clangd_command : Option Text → Result (Text × List Text)
    clangd_command none = err (wrap [] (sentinel no_compile_commands))
    clangd_command (some dir) = ok (
      cfg.clangd_path,
      ((txt "--compile-commands-dir=" ++ dir) ∷ txt "--pch-storage=memory" ∷ txt "--log=error" ∷ [])
          ++ cfg.clangd_args,
    )

    -- `commandFor`
    unfoldable pub command_for : Text → Language → Result (Text × List Text)
    unfolding has_go_module compile_commands_dir
    command_for repo_dir lang =
        if lang == language_go
        then (if not (has_go_module repo_dir)
            then err (wrap [] (sentinel no_go_module))
            else ok (cfg.gopls_path, []))
        else if lang == language_c
        then clangd_command (compile_commands_dir repo_dir)
        else err (wrap [] (sentinel unsupported_language))
