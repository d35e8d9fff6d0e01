-- ===== src/Indexer/Files/Laws.antt =====
-- internal/ast/indexer/indexer.go: the files that a crawl collects.
use dotfs_mcp_server.Base.{
  ◌≡◌, ◌≤◌, true, not, ◌||◌, [], ◌∷◌, Text, Option, none, some, ok, Error, All, All-append, length,
  length-append, ltz, pos, arith, Bool-cases, Result-cases, inl, inr,
}
use dotfs_mcp_server.Parser.{supports}
use dotfs_mcp_server.Utils.Files.{DirEntry}
use dotfs_mcp_server.Indexer.Options.{Indexer}
use dotfs_mcp_server.Indexer.Files.{
  Node, item, unreadable, Forest, empty, tree, Walk, with_info, visit_file, is_skipped, visit_item,
  then_walk, walk_node, walk_forest, finish_walk, collect_files,
}

-- An engine is there for every file, and every file has been counted.
abbrev pub Collected : Indexer → Walk → Type 0
Collected ix w = All (λ p. supports ix.registry p ≡ true) w.files × (length w.files ≤ w.scanned)

visit_file-Collected :
    (ix : Indexer) (path : Text) (d : DirEntry) (w : Walk)
    → Collected ix w
    → Collected ix (visit_file ix path d w)
unfolding visit_file
visit_file-Collected ix path d w (all, few) =
    elim (Bool-cases (d.is_symlink || not (supports ix.registry path))) [
      | inl passed_over ↦ rw passed_over (all, few)
      | inr taken ↦
          let is : supports ix.registry path ≡ true = ground (arith, taken) in
          rw taken elim (Result-cases d.info) [
            | inl (e, bad) ↦ rw (bad, with_info) (all, omega (arith, few))
            | inr (info, good) ↦
                rw (good, with_info)
                  elim (Bool-cases (ltz ix.opts.max_file_size (pos info.size))) [
                    | inl large ↦ rw large (all, omega (arith, few))
                    | inr small ↦ rw small (
                      All-append (λ p. supports ix.registry p ≡ true) w.files (path ∷ []) all
                          (is, tt),
                      omega (arith, few, length-append w.files (path ∷ [])),
                    )
                  ]
          ]
    ]

then_walk-Collected :
    (ix : Indexer) (next : Walk → Option Error × Walk) (r : Option Error × Walk)
    → Collected ix r.1
    → ((w : Walk) → Collected ix w → Collected ix (next w).1)
    → Collected ix (then_walk next r).1
then_walk-Collected ix next (none, w) h k = k w h
then_walk-Collected ix next (some e, w) h k = h

visit_item-Collected :
    (ix : Indexer) (root path : Text) (d : DirEntry) (w : Walk) (inner : Option Error × Walk)
    (ctx : Option Error)
    → Collected ix w
    → Collected ix inner.1
    → Collected ix (visit_item ix root path d w inner ctx).1
unfolding is_skipped visit_file
visit_item-Collected ix root path d w inner (some e) h k = h
visit_item-Collected ix root path d w inner none h k = elim (Bool-cases d.is_dir) [
  | inr file ↦ rw (file, visit_item) (visit_file-Collected ix path d w h)
  | inl dir ↦ elim (Bool-cases (is_skipped ix root path d)) [
    | inl skipped ↦ rw (dir, visit_item) (rw skipped h)
    | inr walked ↦ rw (dir, visit_item) (rw walked k)
  ]
]

module _ (ix : Indexer) (ctx : Text → Option Error) (root : Text) where
  mutual
    unfolding walk_node

    walk_node-Collected :
        (n : Node) (w : Walk) → Collected ix w → Collected ix (walk_node ix ctx root n w).1
    walk_node-Collected (unreadable path e) w h = h
    walk_node-Collected (item path d below) w h =
        visit_item-Collected ix root path d w (walk_forest ix ctx root below w) (ctx path) h
          (walk_forest-Collected below w h)

    walk_forest-Collected :
        (ns : Forest) (w : Walk) → Collected ix w → Collected ix (walk_forest ix ctx root ns w).1
    walk_forest-Collected empty w h = h
    walk_forest-Collected (tree n ns) w h =
        then_walk-Collected ix (walk_forest ix ctx root ns) (walk_node ix ctx root n w)
          (walk_node-Collected n w h) (walk_forest-Collected ns)

finish_walk-Collected :
    (ix : Indexer) (r : Option Error × Walk) (w : Walk)
    → Collected ix r.1
    → finish_walk r ≡ ok w
    → Collected ix w
finish_walk-Collected ix (none, v) w h e = ground (arith, h, e)
finish_walk-Collected ix (some x, v) w h e = cc

-- Every file that `collectFiles` returns has an engine for its extension, and has been counted in the
-- number of files scanned.
pub collect_files-Collected :
    (ix : Indexer) (ctx : Text → Option Error) (root : Text) (node : Node) (w : Walk)
    → collect_files ix ctx root node ≡ ok w
    → Collected ix w
unfolding collect_files
collect_files-Collected ix ctx root node w e =
    finish_walk-Collected ix (walk_node ix ctx root node (record { files = []; scanned = 0 })) w
      (walk_node-Collected ix ctx root node _ (tt, omega arith)) e
