-- ===== src/Xref/Service/Resolve.antt =====
-- internal/xref/service.go: `resolve` and `resolveInRepo`.
use dotfs_mcp_server.Base.{
  Bool, true, ◌||◌, [], ◌++◌, Text, txt, ◌==◌, bytes_eq, has_prefix, trim_space, Result, ok, err,
  message, wrapped, reject_if, ◌>>=◌, ◌>>◌, pos, ltz, subz,
}
use dotfs_mcp_server.Utils.Files.{FileSystem}
use dotfs_mcp_server.Utils.Paths.{is_abs, clean, join_path, rel, dot_dot, slash}
use dotfs_mcp_server.Utils.Names.{validate_repo_name, language_for, language_id}
use dotfs_mcp_server.Utils.Safe.{safe_repo_path}
use dotfs_mcp_server.Lsp.Protocol.{path_to_uri}
use dotfs_mcp_server.Xref.Source.{identifier_at}
use dotfs_mcp_server.Xref.Compact.{Service}
use dotfs_mcp_server.Xref.Service.{Provider, Place, Target}

-- Does a relative path leave its base?
unfoldable pub escapes : Text → Bool
escapes p = p == dot_dot || has_prefix (dot_dot ++ slash) p

abbrev pub outside : Result Text → Bool
outside (err e) = true
outside (ok r) = escapes r

abbrev rel_or_empty : Result Text → Text
rel_or_empty (err e) = []
rel_or_empty (ok r) = r

-- `resolveInRepo`
unfoldable pub resolve_in_repo : FileSystem → Text → Text → Result (Text × Text)
resolve_in_repo fs repo_dir rel_path = do
  reject_if (trim_space rel_path == []) (message (txt "xref: file_path must not be empty"))
  reject_if (is_abs (trim_space rel_path))
      (message (txt "xref: file_path must be relative to the repository"))
  reject_if (escapes (clean (trim_space rel_path)))
      (message (txt "xref: file_path must not escape the repository"))
  resolved ←
      wrapped (txt "xref: resolve")
        (fs.eval_symlinks (join_path repo_dir (clean (trim_space rel_path))))
  real_repo ← wrapped (txt "xref: resolve repository directory") (fs.eval_symlinks repo_dir)
  reject_if (outside (rel real_repo resolved))
      (message (txt "xref: file_path resolves outside the repository"))
  ok (resolved, rel_or_empty (rel real_repo resolved))

-- `resolve`
unfoldable pub resolve : Service → Provider → Place → Result Target
resolve s provider p = do
  wrapped (txt "xref") (validate_repo_name p.repo)
  reject_if (ltz p.line (pos 1)) (message (txt "xref: line must be a positive 1-based number"))
  reject_if (ltz p.character (pos 1))
      (message (txt "xref: character must be a positive 1-based number"))
  repo_dir ← wrapped (txt "xref") (safe_repo_path s.fs s.root p.repo)
  found ← resolve_in_repo s.fs repo_dir p.file_path
  lang ← wrapped (txt "xref") (language_for found.0)
  session ← provider.client_session p.repo repo_dir lang
  session.ensure_open found.0 (language_id lang found.0)
  ok (record {
    repo = p.repo;
    rel_path = found.1;
    abs_path = found.0;
    session = session;
    position = record { line = subz p.line 1; character = subz p.character 1 };
    doc = path_to_uri found.0;
    name = (identifier_at s.fs [] found.0 p.line p.character).0;
    src = (identifier_at s.fs [] found.0 p.line p.character).1;
  })
