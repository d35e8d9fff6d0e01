-- ===== src/Indexer/Snippet.antt =====
-- internal/ast/indexer/indexer.go: `ReadSnippet`.
pub mod Laws
use dotfs_mcp_server.Base.{
  ℕ, zero, suc, ◌+◌, ◌-◌, Bool, true, false, not, ◌&&◌, ◌||◌, List, [], ◌∷◌, ◌++◌, Text, txt, ◌==◌,
  bytes_eq, has_prefix, trim_prefix, decimal, length, take, drop, ltb, leb, Result, ok, err, Error,
  message, wrapped, reject_if, ◌>>=◌, ◌>>◌, ℤ, pos, negsuc, ltz, if◌then◌else◌,
}
use dotfs_mcp_server.Utils.Files.{FileSystem, Info}
use dotfs_mcp_server.Utils.Paths.{clean, is_abs, join_path, dot, dot_dot, slash}
use dotfs_mcp_server.Utils.Safe.{safe_repo_path, is_within_repo}
use dotfs_mcp_server.Xref.Source.{split_lines}
use dotfs_mcp_server.Indexer.Options.{Indexer, Options}

-- `MaxSnippetLines`
abbrev pub max_snippet_lines : ℕ
max_snippet_lines = 200

-- The first line asked for, at least 1.
unfoldable pub first_of : ℤ → ℕ
first_of (pos zero) = 1
first_of (pos (suc n)) = suc n
first_of (negsuc n) = 1

abbrev pub to_nat : ℤ → ℕ
to_nat (pos n) = n
to_nat (negsuc n) = 0

-- The last line asked for, at most 200 lines on; it is not before the first one here.
unfoldable pub last_of : ℕ → ℕ → ℕ
last_of first last =
    if ltb max_snippet_lines (last - first + 1) then first + max_snippet_lines - 1 else last

-- The last line that there is.
unfoldable pub capped_to : ℕ → ℕ → ℕ
capped_to last count = if ltb count last then count else last

abbrev spaces : ℕ → Text → Text
spaces zero s = s
spaces (suc n) s = b' ' ∷ spaces n s

-- The lines, "%6d | %s\n" each, from a number on.
unfoldable pub number_lines : ℕ → List Text → Text
number_lines n [] = []
number_lines n (l ∷ ls) =
    spaces (6 - length (decimal n)) (decimal n)
    ++ txt " | "
    ++ l
    ++ (b'\n' ∷ number_lines (suc n) ls)

-- What is written of the lines of a file.
unfoldable pub render : Text → Text → List Text → ℕ → ℕ → Text
render repo path lines first last =
    (repo ++ slash ++ path ++ txt ":" ++ decimal first ++ txt "-" ++ decimal last ++ (b'\n' ∷ []))
    ++ number_lines first (take (suc last - first) (drop (first - 1) lines))

-- `ReadSnippet`
unfoldable pub read_snippet : Indexer → Text → Text → ℤ → ℤ → Result Text
read_snippet ix repo rel_path start_line end_line = do
  repo_path ← safe_repo_path ix.fs ix.opts.workspace_root repo
  reject_if (ltz end_line (pos (first_of start_line)))
      (message (txt "end_line must not precede start_line"))
  reject_if
      (clean (trim_prefix slash rel_path) == dot
        || has_prefix dot_dot (clean (trim_prefix slash rel_path))
        || is_abs (clean (trim_prefix slash rel_path)))
      (message (txt "file_path is not a repository-relative path"))
  real ←
      wrapped (txt "resolve")
        (ix.fs.eval_symlinks (join_path repo_path (clean (trim_prefix slash rel_path))))
  reject_if (not (is_within_repo repo_path real))
      (message (txt "file_path resolves outside repository"))
  info ← wrapped (txt "stat") (ix.fs.stat real)
  reject_if info.is_dir (message (txt "is a directory"))
  reject_if (ltz ix.opts.max_file_size (pos info.size))
      (message (txt "is larger than the read limit"))
  src ← wrapped (txt "read") (ix.fs.read_file real)
  reject_if (ltb (length (split_lines src)) (first_of start_line))
      (message (txt "start_line is past the end"))
  ok (
      render repo (clean (trim_prefix slash rel_path)) (split_lines src) (first_of start_line)
        (capped_to (last_of (first_of start_line) (to_nat end_line)) (length (split_lines src))))
