-- ===== src/Utils/Safe.antt =====
-- internal/utils/utils.go: `IsWithinRepo` and `SafeRepoPath`.
use dotfs_mcp_server.Base.{
  ◌≡◌, refl, sym, ap, ◌∙◌, Bool, true, false, not, ◌&&◌, ◌||◌, List, [], ◌∷◌, ◌++◌, Text, txt, ◌==◌,
  nat_eq, bytes_eq, has_prefix, join, Result, ok, err, message, wrapped, ◌>>=◌, ◌>>◌, reject_if,
  arith, >>=-eq-ok, wrapped-eq-ok, reject_if-eq-ok,
}
use dotfs_mcp_server.Utils.Paths.{is_abs, clean, elements, rel, dot, dot_dot, slash, join_path}
use dotfs_mcp_server.Utils.Below.{rel-stays}
use dotfs_mcp_server.Utils.Files.{FileSystem, Info}
use dotfs_mcp_server.Utils.Names.{validate_repo_name}

-- `IsWithinRepo`
abbrev inside : Result Text → Bool
inside (err e) = false
inside (ok r) = r == dot || (not (has_prefix dot_dot r) && not (is_abs r))

unfoldable pub is_within_repo : Text → Text → Bool
is_within_repo root child = inside (rel root child)

-- `SafeRepoPath`
unfoldable pub safe_repo_path : FileSystem → Text → Text → Result Text
safe_repo_path fs root name = do
  validate_repo_name name
  real_root ← wrapped (txt "resolve workspace root") (fs.eval_symlinks root)
  real_path ← wrapped (txt "resolve repository") (fs.eval_symlinks (join_path real_root name))
  reject_if (not (is_within_repo real_root real_path))
      (message (txt "repository resolves outside the workspace root"))
  info ← wrapped (txt "stat repository") (fs.stat real_path)
  reject_if (not info.is_dir) (message (txt "repository is not a directory"))
  ok real_path

pub not-eq-false : (b : Bool) → not b ≡ false → b ≡ true
not-eq-false true h = refl
not-eq-false false h = cc

-- A way that begins with ".." is not inside.
join-dot_dot : (es : List Text) → not (inside (ok (join slash (dot_dot ∷ es)))) ≡ true
unfolding join has_prefix nat_eq
join-dot_dot [] = ground arith
join-dot_dot (e ∷ es) = ground arith

-- A path that is found inside an absolute root is the root's path with more elements behind it.
pub is_within_repo_sound :
    (root child : Text)
    → is_abs (clean root) ≡ true
    → is_within_repo root child ≡ true
    → (below : List Text) × (elements (clean child) ≡ elements (clean root) ++ below)
unfolding is_within_repo
is_within_repo_sound root child abs h =
    rel-stays (λ r. not (inside r)) (λ e. refl) join-dot_dot root child abs (ap not h)

-- The directory that `SafeRepoPath` returns is a directory whose path is the real path of the root
-- with more elements behind it, if the real path of the root is absolute.
pub safe_repo_path_inside :
    (fs : FileSystem) (root name path real : Text)
    → fs.eval_symlinks root ≡ ok real
    → is_abs (clean real) ≡ true
    → safe_repo_path fs root name ≡ ok path
    → ((below : List Text) × (elements (clean path) ≡ elements (clean real) ++ below))
      × ((info : Info) × (fs.stat path ≡ ok info) × (info.is_dir ≡ true))
unfolding safe_repo_path
safe_repo_path_inside fs root name path real is_real abs h =
    let (u, valid, h1) = >>=-eq-ok (validate_repo_name name) _ h in
    let (found_root, e2, h2) = >>=-eq-ok (wrapped _ (fs.eval_symlinks root)) _ h1 in
    let (target, e3, h3) =
      >>=-eq-ok (wrapped _ (fs.eval_symlinks (join_path found_root name))) _ h2 in
    let (within, h4) = reject_if-eq-ok (not (is_within_repo found_root target)) _ _ h3 in
    let (info, e5, h5) = >>=-eq-ok (wrapped _ (fs.stat target)) _ h4 in
    let (dir, h6) = reject_if-eq-ok (not info.is_dir) _ _ h5 in
    let same : target ≡ path = cc in
    let same_root : found_root ≡ real = let e = wrapped-eq-ok _ _ e2 in cc in
    let below : is_within_repo real path ≡ true =
      ap (λ r. is_within_repo r path) (sym same_root)
      ∙ ap (is_within_repo found_root) (sym same)
      ∙ not-eq-false _ within in
    (
      is_within_repo_sound real path abs below,
      (info, ap fs.stat (sym same) ∙ wrapped-eq-ok _ _ e5, not-eq-false _ dir),
    )
