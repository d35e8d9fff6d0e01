-- ===== src/Utils/Names.antt =====
-- internal/utils/utils.go: `ValidateRepoName`, `LanguageFor` and `LanguageID`.
use dotfs_mcp_server.Base.{
  ℕ, ◌≡◌, ◌≢◌, ◌≤◌, ◌<◌, Bool, true, false, not, ◌&&◌, ◌||◌, List, [], ◌∷◌, Text, txt, ◌==◌, nat_eq,
  bytes_eq, contains, occurs, leb, length, Result, ok, err, message, wrap, sentinel,
  unsupported_language, unsupported_go_language, arith, if◌then◌else◌,
}
use dotfs_mcp_server.Ast.{Language, language_c, language_go, blank}
use dotfs_mcp_server.Utils.Paths.{ext, dot, dot_dot}

-- [A-Za-z0-9]
unfoldable pub is_alnum : ℕ → Bool
is_alnum c = (leb b'A' c && leb c b'Z') || (leb b'a' c && leb c b'z') || (leb b'0' c && leb c b'9')

-- [A-Za-z0-9._-]
unfoldable pub is_name_char : ℕ → Bool
unfolding is_alnum nat_eq
is_name_char c = is_alnum c || c == b'.' || c == b'_' || c == b'-'

unfoldable pub all_name_chars : Text → Bool
unfolding is_name_char
all_name_chars [] = true
all_name_chars (c ∷ s) = is_name_char c && all_name_chars s

-- `repoNamePattern`, ^[A-Za-z0-9][A-Za-z0-9._-]{0,127}$
unfoldable pub matches_name : Text → Bool
unfolding all_name_chars is_alnum
matches_name [] = false
matches_name (c ∷ s) = is_alnum c && (all_name_chars s && leb (length s) 127)

-- `ValidateRepoName`
unfoldable pub validate_repo_name : Text → Result (Unit {0})
validate_repo_name name =
    if blank name
    then err (message (txt "repository name must not be empty"))
    else if name == dot || name == dot_dot
    then err (message (txt "repository name is not addressable"))
    else if contains name b'/' || contains name b'\x5c'
    then err (message (txt "repository name must not contain a path separator"))
    else if occurs dot_dot name
    then err (message (txt "repository name must not contain a parent directory reference"))
    else if not (matches_name name)
    then err (message (txt "repository name must match the pattern"))
    else ok tt

abbrev c_extensions : List Text
c_extensions =
    txt ".c"
    ∷ txt ".h"
    ∷ txt ".cc"
    ∷ txt ".cpp"
    ∷ txt ".cxx"
    ∷ txt ".hh"
    ∷ txt ".hpp"
    ∷ txt ".hxx"
    ∷ []

abbrev cpp_extensions : List Text
cpp_extensions = txt ".cc" ∷ txt ".cpp" ∷ txt ".cxx" ∷ txt ".hh" ∷ txt ".hpp" ∷ txt ".hxx" ∷ []

-- `LanguageFor`
unfoldable pub language_for : Text → Result Language
unfolding ext
language_for path =
    if ext path == txt ".go"
    then err (sentinel unsupported_go_language)
    else if contains c_extensions (ext path)
    then ok language_c
    else err (wrap (txt "") (sentinel unsupported_language))

-- `LanguageID`
unfoldable pub language_id : Language → Text → Text
unfolding ext
language_id lang path =
    if lang == language_go
    then txt "go"
    else if contains cpp_extensions (ext path)
    then txt "cpp"
    else txt "c"

matches_name-length :
    (name : Text) → matches_name name ≡ true → (0 < length name) × (length name ≤ 128)
unfolding matches_name
matches_name-length [] h = cc
matches_name-length (c ∷ s) h = ground arith

-- An accepted name is one to 128 bytes long, is not a dot name, and holds no path separator and no
-- parent reference.
pub validate_repo_name_safe :
    (name : Text)
    → validate_repo_name name ≡ ok tt
    → (contains name b'/' ≡ false)
      × (contains name b'\x5c' ≡ false)
      × (occurs dot_dot name ≡ false)
      × (name ≢ dot)
      × (0 < length name)
      × (length name ≤ 128)
unfolding validate_repo_name
validate_repo_name_safe name h = ground (arith, matches_name-length name)
