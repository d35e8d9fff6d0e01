-- ===== src/Indexer/Snippet/Laws.antt =====
-- internal/ast/indexer/indexer.go: which lines `ReadSnippet` answers.
use dotfs_mcp_server.Base.{
  ℕ, zero, suc, ◌≡◌, ◌≤◌, ◌<◌, ◌+◌, ◌-◌, true, false, not, ◌||◌, Text, ◌==◌, bytes_eq, has_prefix,
  trim_prefix, length, ltb, ok, wrapped, >>=-eq-ok, wrapped-eq-ok, reject_if-eq-ok, ℤ, pos, negsuc,
  ltz, arith, if◌then◌else◌,
}
use dotfs_mcp_server.Utils.Paths.{clean, is_abs, join_path, dot, dot_dot, slash}
use dotfs_mcp_server.Utils.Safe.{safe_repo_path, is_within_repo, not-eq-false}
use dotfs_mcp_server.Xref.Source.{split_lines}
use dotfs_mcp_server.Indexer.Options.{Indexer}
use dotfs_mcp_server.Indexer.Snippet.{
  first_of, to_nat, last_of, capped_to, render, read_snippet, max_snippet_lines,
}

-- A file inside the repository, and the range of its lines that is written.
pub record IsSnippet (ix : Indexer) (repo rel_path text : Text) : Type 0 where
  pub repo_path : Text
  pub real : Text
  pub src : Text
  pub first : ℕ
  pub last : ℕ
  pub in_workspace : safe_repo_path ix.fs ix.opts.workspace_root repo ≡ ok repo_path
  pub within : is_within_repo repo_path real ≡ true
  pub contents : ix.fs.read_file real ≡ ok src
  pub from_one : 1 ≤ first
  pub ordered : first ≤ last
  pub in_file : last ≤ length (split_lines src)
  pub capped : last < first + 200
  pub written : text ≡ render repo (clean (trim_prefix slash rel_path)) (split_lines src) first last

first_of-le : (start : ℤ) → 1 ≤ first_of start
unfolding first_of
first_of-le (pos zero) = omega arith
first_of-le (pos (suc n)) = omega arith
first_of-le (negsuc n) = omega arith

to_nat-le : (end : ℤ) (n : ℕ) → ltz end (pos n) ≡ false → n ≤ to_nat end
unfolding ltz
to_nat-le (pos m) n h = ground (arith, h)
to_nat-le (negsuc m) n h = cc

range-ordered :
    (first last count cap : ℕ)
    → 0 < cap
    → first ≤ last
    → first ≤ count
    → (first ≤ capped_to (if ltb cap (last - first + 1) then first + cap - 1 else last) count)
      × (capped_to (if ltb cap (last - first + 1) then first + cap - 1 else last) count ≤ count)
      × (capped_to (if ltb cap (last - first + 1) then first + cap - 1 else last) count
          < first + cap)
unfolding capped_to
range-ordered first last count cap some h k = ground arith

-- When `ReadSnippet` answers, the file is inside the repository, and the text is a range of its
-- lines: in order, within the file, from line 1 on at the earliest, and 200 lines at most.
pub read_snippet-IsSnippet :
    (ix : Indexer) (repo rel_path : Text) (start_line end_line : ℤ) (text : Text)
    → read_snippet ix repo rel_path start_line end_line ≡ ok text
    → IsSnippet ix repo rel_path text
unfolding read_snippet last_of
read_snippet-IsSnippet ix repo rel_path start_line end_line text h =
    let (repo_path, e1, h1) = >>=-eq-ok (safe_repo_path ix.fs ix.opts.workspace_root repo) _ h in
    let (not_before, h2) = reject_if-eq-ok (ltz end_line (pos (first_of start_line))) _ _ h1 in
    let path = clean (trim_prefix slash rel_path) in
    let (relative, h3) =
      reject_if-eq-ok (path == dot || has_prefix dot_dot path || is_abs path) _ _ h2 in
    let (real, e4, h4) =
      >>=-eq-ok (wrapped _ (ix.fs.eval_symlinks (join_path repo_path path))) _ h3 in
    let (within, h5) = reject_if-eq-ok (not (is_within_repo repo_path real)) _ _ h4 in
    let (info, e6, h6) = >>=-eq-ok (wrapped _ (ix.fs.stat real)) _ h5 in
    let (file, h7) = reject_if-eq-ok info.is_dir _ _ h6 in
    let (small, h8) = reject_if-eq-ok (ltz ix.opts.max_file_size (pos info.size)) _ _ h7 in
    let (src, e9, h9) = >>=-eq-ok (wrapped _ (ix.fs.read_file real)) _ h8 in
    let (reached, h10) =
      reject_if-eq-ok (ltb (length (split_lines src)) (first_of start_line)) _ _ h9 in
    let first = first_of start_line in
    let count = length (split_lines src) in
    let (ordered, in_file, capped) =
      range-ordered first (to_nat end_line) count max_snippet_lines (omega arith)
        (to_nat-le end_line first not_before) (ground (arith, reached)) in
    record {
      repo_path = repo_path;
      real = real;
      src = src;
      first = first;
      last = capped_to (last_of first (to_nat end_line)) count;
      in_workspace = e1;
      within = not-eq-false _ within;
      contents = wrapped-eq-ok _ _ e9;
      from_one = first_of-le start_line;
      ordered = ordered;
      in_file = in_file;
      capped = capped;
      written = cc;
    }
