-- ===== src/Indexer/Files.antt =====
-- internal/ast/indexer/indexer.go: `parseFile` and `collectFiles`.
pub mod Laws
use dotfs_mcp_server.Base.{
  ℕ, suc, Bool, not, ◌&&◌, ◌||◌, List, [], ◌∷◌, ◌++◌, Text, txt, ◌==◌, bytes_eq, contains, occurs,
  is_empty, Option, none, some, Result, ok, err, Error, wrap, ℤ, pos, ltz, if◌then◌else◌,
}
use dotfs_mcp_server.Parser.{Symbol, Engine, engine_for, supports}
use dotfs_mcp_server.Utils.Files.{DirEntry, Info}
use dotfs_mcp_server.Utils.Paths.{rel}
use dotfs_mcp_server.Indexer.Options.{Indexer}

-- What a worker sends: the file is filtered out (nil symbols), parsed, or failed.
pub data Parsed : Type 0 where
  filtered : Parsed
  parsed : List Symbol → Parsed
  parse_failed : Error → Parsed

-- `parseResult`
pub record ParseResult : Type 0 where
  pub rel_path : Text
  pub outcome : Parsed

abbrev rel_or : Text → Result Text → Text
rel_or path (ok r) = r
rel_or path (err e) = path

abbrev run_engine : Engine → Text → Text → Parsed
run_engine engine path src = elim (engine.parse path src) [
  | err e ↦ parse_failed e
  | ok none ↦ parsed []
  | ok (some symbols) ↦ parsed symbols
]

-- Phase 1 looks for the target, or asks the engine if there is none.
unfoldable pub passes_filter : Engine → Text → Text → Bool
passes_filter engine target src =
    if not (is_empty target) then occurs target src else engine.prefilter src

abbrev parse_source : Engine → Text → Text → Result Text → Parsed
parse_source engine path target (err e) = parse_failed (wrap (txt "read") e)
parse_source engine path target (ok src) =
    let found = run_engine engine path src in
    if passes_filter engine target src then found else filtered

-- `parseFile`
unfoldable pub parse_file : Indexer → Text → Text → Text → ParseResult
parse_file ix repo_path path target = record {
  rel_path = rel_or path (rel repo_path path);
  outcome = elim (engine_for ix.registry path) [
    | none ↦ filtered
    | some engine ↦ parse_source engine path target (ix.fs.read_file path)
  ];
}

-- What `filepath.WalkDir` meets: an entry with what lies below it, or an error.
mutual
  pub data Node : Type 0 where
    item : Text → DirEntry → Forest → Node
    unreadable : Text → Error → Node

  pub data Forest : Type 0 where
    empty : Forest
    tree : Node → Forest → Forest

-- The files found, and how many were scanned.
pub record Walk : Type 0 where
  pub files : List Text
  pub scanned : ℕ

abbrev pub with_info : ℤ → Text → Walk → Result Info → Walk
with_info limit path w (err e) = w
with_info limit path w (ok info) =
    if ltz limit (pos info.size)
    then w
    else record { files = w.files ++ path ∷ []; scanned = w.scanned }

-- The visit of an entry that is no directory.
unfoldable pub visit_file : Indexer → Text → DirEntry → Walk → Walk
visit_file ix path d w =
    if d.is_symlink || not (supports ix.registry path)
    then w
    else with_info ix.opts.max_file_size path (record { files = w.files; scanned = suc w.scanned })
        d.info

-- A directory that is not walked: a skipped name, below the root.
unfoldable pub is_skipped : Indexer → Text → Text → DirEntry → Bool
is_skipped ix root path d = contains ix.opts.skip_dirs d.name && not (path == root)

abbrev pub then_walk : (Walk → Option Error × Walk) → Option Error × Walk → Option Error × Walk
then_walk next (none, w) = next w
then_walk next (some e, w) = (some e, w)

-- The visit of an entry; `inner` is what the walk below it gives.
abbrev pub visit_item :
    Indexer
    → Text
    → Text
    → DirEntry
    → Walk
    → Option Error × Walk
    → Option Error
    → Option Error × Walk
visit_item ix root path d w inner (some e) = (some e, w)
visit_item ix root path d w inner none =
    if d.is_dir
    then (if is_skipped ix root path d then (none, w) else inner)
    else (none, visit_file ix path d w)

-- `ctx` is what `ctx.Err()` gives when a path is visited.
unfoldable mutual
  pub walk_node : Indexer → (Text → Option Error) → Text → Node → Walk → Option Error × Walk
  walk_node ix ctx root (unreadable path e) w = (none, w)
  walk_node ix ctx root (item path d below) w =
      visit_item ix root path d w (walk_forest ix ctx root below w) (ctx path)

  pub walk_forest : Indexer → (Text → Option Error) → Text → Forest → Walk → Option Error × Walk
  walk_forest ix ctx root empty w = (none, w)
  walk_forest ix ctx root (tree n ns) w =
      then_walk (λ v. walk_forest ix ctx root ns v) (walk_node ix ctx root n w)

abbrev pub finish_walk : Option Error × Walk → Result Walk
finish_walk (none, w) = ok w
finish_walk (some e, w) = err (wrap (txt "walk repository") e)

-- `collectFiles`, on the tree at the repository's path
unfoldable pub collect_files : Indexer → (Text → Option Error) → Text → Node → Result Walk
collect_files ix ctx root node =
    finish_walk (walk_node ix ctx root node (record { files = []; scanned = 0 }))
