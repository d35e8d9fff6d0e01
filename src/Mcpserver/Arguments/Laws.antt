-- ===== src/Mcpserver/Arguments/Laws.antt =====
-- internal/mcpserver/server.go: what the handlers know of the arguments that they read.
use dotfs_mcp_server.Base.{
  ◌≡◌, false, ◌⊎◌, inl, inr, Option, none, some, [], Text, txt, trim_space, is_empty, ok,
  Bool-cases, Option-cases, Result-cases,
}
use dotfs_mcp_server.Utils.Names.{validate_repo_name}
use dotfs_mcp_server.Xref.Service.{Place}
use dotfs_mcp_server.Mcpserver.{Request, ToolResult, text_result, error_result, error_from}
use dotfs_mcp_server.Mcpserver.Arguments.{
  Read, refused, got, ◌>>=◌, non_blank, valid_repo, or_refuse, required_string, required_repo,
  position_from,
}

abbrev pub IsError : ToolResult → Type 0
IsError (text_result text) = ⊥
IsError (error_result m vs) = Unit
IsError (error_from m e) = Unit

-- A refusal is an error, and a value that was read has a property.
abbrev pub Reads {ℓ} : {A : Type ℓ} → (A → Type 0) → Read A → Type 0
Reads P (refused answer) = IsError answer
Reads P (got a) = P a

pub Reads-bind {ℓ κ} :
    {A : Type ℓ} {B : Type κ} (P : A → Type 0) (Q : B → Type 0) (r : Read A) (k : A → Read B)
    → Reads P r
    → ((a : A) → P a → Reads Q (k a))
    → Reads Q (r >>= k)
Reads-bind P Q (refused answer) k h rest = h
Reads-bind P Q (got a) k h rest = rest a h

-- A text argument that was read
abbrev pub NonEmpty : Text → Type 0
NonEmpty t = is_empty t ≡ false

non_blank-Reads : (m raw : Text) → Reads NonEmpty (or_refuse m (non_blank raw))
non_blank-Reads m raw = elim (Bool-cases (is_empty (trim_space raw))) [
  | inl e ↦ rw e tt
  | inr e ↦ rw e e
]

pub required_string-Reads :
    (m : Text) (req : Request) (key : Text) → Reads NonEmpty (or_refuse m (required_string req key))
unfolding required_string
required_string-Reads m req key = elim (Option-cases (req.require_string key)) [
  | inl e ↦ rw (e, required_string) tt
  | inr (raw, e) ↦ rw (e, required_string) (non_blank-Reads m raw)
]

abbrev pub IsRepoName : Text → Type 0
IsRepoName repo = validate_repo_name repo ≡ ok tt

valid_repo-Reads : (repo : Text) → Reads IsRepoName (valid_repo repo (validate_repo_name repo))
valid_repo-Reads repo = elim (Result-cases (validate_repo_name repo)) [
  | inl (e, is) ↦ rw is tt
  | inr (u, is) ↦ rw is is
]

pub required_repo-Reads : (req : Request) → Reads IsRepoName (required_repo req)
unfolding required_repo
required_repo-Reads req =
    Reads-bind NonEmpty IsRepoName _ _ (required_string-Reads _ req (txt "repo_name"))
      (λ repo _. valid_repo-Reads repo)

-- An optional repository is none, or has a valid name.
abbrev pub IsRepoFilter : Text → Type 0
IsRepoFilter repo = (repo ≡ []) ⊎ IsRepoName repo

-- Any value at all
abbrev pub AnyValue {ℓ} : {A : Type ℓ} → A → Type 0
AnyValue a = Unit

pub or_refuse-Reads {ℓ} : {A : Type ℓ} (m : Text) (o : Option A) → Reads AnyValue (or_refuse m o)
or_refuse-Reads m none = tt
or_refuse-Reads m (some a) = tt

-- A place that a relational tool asks about
abbrev pub IsPlace : Place → Type 0
IsPlace p = IsRepoName p.repo × NonEmpty p.file_path

pub position_from-Reads : (req : Request) → Reads IsPlace (position_from req)
unfolding position_from
position_from-Reads req = Reads-bind IsRepoName IsPlace _ _ (required_repo-Reads req) λ repo named.
    Reads-bind NonEmpty IsPlace _ _ (required_string-Reads _ req (txt "file_path")) λ path filled.
      Reads-bind AnyValue IsPlace _ _ (or_refuse-Reads _ (req.require_int (txt "line"))) λ line _.
        Reads-bind AnyValue IsPlace _ _ (or_refuse-Reads _ (req.require_int (txt "character")))
          (λ character _. (named, filled))
