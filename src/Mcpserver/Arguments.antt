-- ===== src/Mcpserver/Arguments.antt =====
-- internal/mcpserver/server.go: the arguments that the handlers share.
pub mod Laws
use dotfs_mcp_server.Base.{
  ◌≡◌, refl, Bool, true, false, Option, none, some, List, [], ◌∷◌, Text, txt, ℤ, trim_space,
  is_empty, Result, ok, err, ◌⊎◌, inl, inr, if◌then◌else◌, ◌≢◌, Bool-cases, Option-cases,
  Result-cases, arith,
}
use dotfs_mcp_server.Utils.Names.{validate_repo_name}
use dotfs_mcp_server.Xref.Service.{Place}
use dotfs_mcp_server.Mcpserver.{Request, ToolResult, text_result, error_result, error_from}

-- What a handler reads from its request, or the answer that ends it.
pub data Read {ℓ} (A : Type ℓ) : Type ℓ where
  refused : ToolResult → Read A
  got : A → Read A

infixl 10 ◌>>=◌
abbrev pub ◌>>=◌ {ℓ κ} : {A : Type ℓ} {B : Type κ} → Read A → (A → Read B) → Read B
refused answer >>= rest = refused answer
got value >>= rest = rest value

-- The trimmed text, unless it is blank.
abbrev non_blank : Text → Option Text
non_blank raw = if is_empty (trim_space raw) then none else some (trim_space raw)

-- `requiredString`
unfoldable pub required_string : Request → Text → Option Text
unfolding trim_space
required_string req key = elim (req.require_string key) [ none ↦ none | some raw ↦ non_blank raw ]

-- An argument with the message of a handler that finds it missing.
abbrev pub or_refuse {ℓ} : {A : Type ℓ} → Text → Option A → Read A
or_refuse m none = refused (error_result m [])
or_refuse m (some a) = got a

abbrev pub valid_repo : Text → Result (Unit {0}) → Read Text
valid_repo repo (err e) = refused (error_from (txt "invalid repo_name") e)
valid_repo repo (ok _) = got repo

-- `optionalRepo`
unfoldable pub optional_repo : Request → Read Text
unfolding trim_space validate_repo_name
optional_repo req =
    let repo = trim_space (req.get_string (txt "repo_name") []) in
    if is_empty repo then got [] else valid_repo repo (validate_repo_name repo)

-- `repo_name` where a tool requires it
unfoldable pub required_repo : Request → Read Text
unfolding required_string validate_repo_name
required_repo req =
    or_refuse (txt "repo_name is required and must be a non-empty string")
      (required_string req (txt "repo_name"))
    >>= λ repo. valid_repo repo (validate_repo_name repo)

-- `positionFrom`
unfoldable pub position_from : Request → Read Place
unfolding required_repo required_string
position_from req = do
  repo ← required_repo req
  path ←
      or_refuse (txt "file_path is required and must be a non-empty string")
        (required_string req (txt "file_path"))
  line ←
      or_refuse (txt "line is required and must be a 1-based integer")
        (req.require_int (txt "line"))
  character ←
      or_refuse (txt "character is required and must be a 1-based integer")
        (req.require_int (txt "character"))
  got (record { repo = repo; file_path = path; line = line; character = character })
