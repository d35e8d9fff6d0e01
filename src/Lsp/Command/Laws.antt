-- ===== src/Lsp/Command/Laws.antt =====
-- internal/lsp/manager.go: when there is a command line.
use dotfs_mcp_server.Base.{
  ◌≡◌, refl, inl, inr, true, false, ◌⊎◌, Option, none, some, List, [], ◌∷◌, ◌++◌, Text, txt,
  bytes_eq, All, Result, ok, err, wrap, sentinel, no_compile_commands, Bool-cases,
}
use dotfs_mcp_server.Ast.{language_c}
use dotfs_mcp_server.Utils.Paths.{join_path}
use dotfs_mcp_server.Utils.Files.{FileSystem}
use dotfs_mcp_server.Config.Load.{LspConfig}
use dotfs_mcp_server.Lsp.Command.{
  candidates, has_database, first_database, compile_commands_dir, clangd_command, command_for,
}

module _ (fs : FileSystem) (repo_dir : Text) where
  -- The directory is the first of the places that holds a compilation database.
  abbrev pub IsFirst : List Text → Text → Type 0
  IsFirst [] dir = ⊥
  IsFirst (c ∷ cs) dir =
      ((has_database fs repo_dir c ≡ true) × (dir ≡ join_path repo_dir c))
      ⊎ ((has_database fs repo_dir c ≡ false) × IsFirst cs dir)

  abbrev pub Searched : List Text → Option Text → Type 0
  Searched cs none = All (λ c. has_database fs repo_dir c ≡ false) cs
  Searched cs (some dir) = IsFirst cs dir

  skip :
      (c : Text) (cs : List Text) (o : Option Text)
      → has_database fs repo_dir c ≡ false
      → Searched cs o
      → Searched (c ∷ cs) o
  skip c cs none e h = (e, h)
  skip c cs (some dir) e h = inr (e, h)

  first_database-Searched : (cs : List Text) → Searched cs (first_database fs repo_dir cs)
  unfolding first_database
  first_database-Searched [] = tt
  first_database-Searched (c ∷ cs) = elim (Bool-cases (has_database fs repo_dir c)) [
    | inl e ↦ rw (e, first_database) (inl (e, refl))
    | inr e ↦ rw (e, first_database) (skip c cs _ e (first_database-Searched cs))
  ]

  module _ (cfg : LspConfig) where
    -- What `commandFor` gives for a C repository
    abbrev pub IsClangd : Result (Text × List Text) → Type 0
    IsClangd (err e) =
        (e ≡ wrap [] (sentinel no_compile_commands))
        × All (λ c. has_database fs repo_dir c ≡ false) candidates
    IsClangd (ok (bin, args)) =
        (dir : Text) × IsFirst candidates dir
        × (bin ≡ cfg.clangd_path)
        × (args
            ≡ ((txt "--compile-commands-dir=" ++ dir)
                ∷ txt "--pch-storage=memory"
                ∷ txt "--log=error"
                ∷ [])
              ++ cfg.clangd_args)

    clangd_command-IsClangd :
        (o : Option Text) → Searched candidates o → IsClangd (clangd_command fs cfg o)
    clangd_command-IsClangd none h = (refl, h)
    clangd_command-IsClangd (some dir) h = (dir, h, refl, refl)

    -- For a C repository the command is clangd with the first of five directories of the repository
    -- that holds a compilation database, and it is refused, with the sentinel that says so, just
    -- when none of the five does.
    pub command_for-IsClangd : IsClangd (command_for fs cfg repo_dir language_c)
    unfolding command_for compile_commands_dir bytes_eq
    command_for-IsClangd =
        clangd_command-IsClangd (first_database fs repo_dir candidates)
          (first_database-Searched candidates)
