-- ===== src/Mcpserver/Tools/Strict.antt =====
-- internal/mcpserver/server.go: what the schema of a tool requires, the reading of a
-- request asks for.
use dotfs_mcp_server.Base.{
  ◌≡◌, ◌⊎◌, inl, inr, ℤ, true, false, Option, none, List, [], ◌∷◌, ◌++◌, Text, txt, All, All-append,
}
use dotfs_mcp_server.Mcpserver.{Request}
use dotfs_mcp_server.Mcpserver.Arguments.{
  Read, refused, got, ◌>>=◌, or_refuse, required_string, required_repo, position_from,
}
use dotfs_mcp_server.Mcpserver.Arguments.Laws.{
  IsError, Reads, NonEmpty, IsRepoName, IsPlace, AnyValue, required_repo-Reads,
  required_string-Reads, or_refuse-Reads, position_from-Reads,
}
use dotfs_mcp_server.Mcpserver.Queries.{
  global_search_query, lookup_symbol_query, type_definition_query, macro_or_const_query,
  snippet_range,
}
use dotfs_mcp_server.Mcpserver.Retrieval.{}
use dotfs_mcp_server.Mcpserver.Relations.{directed_from}
use dotfs_mcp_server.Mcpserver.Tools.{
  Kind, string, number, boolean, Argument, position_args, search_tool, lookup_symbol_tool,
  type_definition_tool, macro_or_const_tool, read_snippet_tool, call_direction_argument,
  call_hierarchy_tool,
}

-- The request has no value of the kind under the key.
abbrev pub Absent : Kind → Text → Request → Type 0
Absent (string options) key req = req.require_string key ≡ none
Absent (number least) key req = req.require_int key ≡ none
Absent boolean key req = ⊥

-- An argument that the schema requires is missing.
abbrev pub Missing : Argument → Request → Type 0
Missing a req = (a.required ≡ true) × Absent a.kind a.key req

abbrev pub Refused {ℓ} : {A : Type ℓ} → Read A → Type 0
Refused (refused answer) = IsError answer
Refused (got a) = ⊥

Refused-head {ℓ κ} :
    {A : Type ℓ} {B : Type κ} (r : Read A) (k : A → Read B) → Refused r → Refused (r >>= k)
Refused-head (refused answer) k h = h
Refused-head (got a) k h = absurd h

Refused-rest {ℓ κ} :
    {A : Type ℓ} {B : Type κ} (P : A → Type 0) (r : Read A) (k : A → Read B)
    → Reads P r
    → ((a : A) → Refused (k a))
    → Refused (r >>= k)
Refused-rest P (refused answer) k h rest = h
Refused-rest P (got a) k h rest = rest a

no_text :
    (m : Text) (req : Request) (key : Text)
    → req.require_string key ≡ none
    → Refused (or_refuse m (required_string req key))
unfolding required_string
no_text m req key e = rw (e, required_string) tt

no_value {ℓ} : {A : Type ℓ} (m : Text) (o : Option A) → o ≡ none → Refused (or_refuse m o)
no_value m o e = rw e tt

module _ (req : Request) where
  -- What is missing of a list of arguments ends the reading of them.
  abbrev pub Strict {ℓ} : {A : Type ℓ} → Read A → List Argument → Type 0
  Strict r = All (λ a. Missing a req → Refused r)

  pub required_repo-Refused :
      req.require_string (txt "repo_name") ≡ none → Refused (required_repo req)
  unfolding required_repo
  required_repo-Refused e =
      Refused-head (or_refuse _ (required_string req (txt "repo_name"))) _ (no_text _ req _ e)

  pub global_search_query-Strict : Strict (global_search_query req) search_tool.arguments
  unfolding global_search_query
  global_search_query-Strict =
      (λ h. Refused-head (or_refuse _ (required_string req _)) _ (no_text _ req _ h.1), tt)

  pub lookup_symbol_query-Strict : Strict (lookup_symbol_query req) lookup_symbol_tool.arguments
  unfolding lookup_symbol_query lookup_symbol_tool
  lookup_symbol_query-Strict = (
    λ h. Refused-head (or_refuse _ (required_string req _)) _ (no_text _ req _ h.1),
    (λ h. cc, (λ h. cc, tt)),
  )

  pub type_definition_query-Strict :
      Strict (type_definition_query req) type_definition_tool.arguments
  unfolding type_definition_query
  type_definition_query-Strict = (
    λ h. Refused-head (or_refuse _ (required_string req _)) _ (no_text _ req _ h.1),
    (λ h. cc, tt),
  )

  pub macro_or_const_query-Strict : Strict (macro_or_const_query req) macro_or_const_tool.arguments
  unfolding macro_or_const_query
  macro_or_const_query-Strict = (
    λ h. Refused-head (or_refuse _ (required_string req _)) _ (no_text _ req _ h.1),
    (λ h. cc, tt),
  )

  -- Four arguments that are read in order.
  module _ {A : Type 0} (m₁ m₂ m₃ : Text) (path : Text) (from to : Text)
      (k : Text → Text → ℤ → ℤ → Read A) where
    abbrev reading : Read A
    reading = do
      repo ← required_repo req
      file ← or_refuse m₁ (required_string req path)
      a ← or_refuse m₂ (req.require_int from)
      b ← or_refuse m₃ (req.require_int to)
      k repo file a b

    reading-Refused :
        (req.require_string (txt "repo_name") ≡ none)
          ⊎ (req.require_string path ≡ none)
          ⊎ (req.require_int from ≡ none)
          ⊎ (req.require_int to ≡ none)
        → Refused reading
    reading-Refused (inl e) = Refused-head (required_repo req) _ (required_repo-Refused e)
    reading-Refused (inr (inl e)) =
        Refused-rest IsRepoName (required_repo req) _ (required_repo-Reads req)
          (λ repo. Refused-head (or_refuse m₁ (required_string req path)) _ (no_text m₁ req path e))
    reading-Refused (inr (inr (inl e))) =
        Refused-rest IsRepoName (required_repo req) _ (required_repo-Reads req) λ repo.
          Refused-rest NonEmpty (or_refuse m₁ (required_string req path)) _
            (required_string-Reads m₁ req path)
            (λ file. Refused-head (or_refuse m₂ (req.require_int from)) _ (no_value m₂ _ e))
    reading-Refused (inr (inr (inr e))) =
        Refused-rest IsRepoName (required_repo req) _ (required_repo-Reads req) λ repo.
          Refused-rest NonEmpty (or_refuse m₁ (required_string req path)) _
            (required_string-Reads m₁ req path)
            λ file.
              Refused-rest AnyValue (or_refuse m₂ (req.require_int from)) _
                (or_refuse-Reads m₂ (req.require_int from))
                (λ a. Refused-head (or_refuse m₃ (req.require_int to)) _ (no_value m₃ _ e))

  pub snippet_range-Strict : Strict (snippet_range req) read_snippet_tool.arguments
  unfolding snippet_range
  snippet_range-Strict = (
    λ h. reading-Refused _ _ _ _ _ _ _ (inl h.1),
    (
      λ h. reading-Refused _ _ _ _ _ _ _ (inr (inl h.1)),
      (
        λ h. reading-Refused _ _ _ _ _ _ _ (inr (inr (inl h.1))),
        (λ h. reading-Refused _ _ _ _ _ _ _ (inr (inr (inr h.1))), tt),
      ),
    ),
  )

  pub position_from-Strict : Strict (position_from req) position_args
  unfolding position_from
  position_from-Strict = (
    λ h. reading-Refused _ _ _ _ _ _ _ (inl h.1),
    (
      λ h. reading-Refused _ _ _ _ _ _ _ (inr (inl h.1)),
      (
        λ h. reading-Refused _ _ _ _ _ _ _ (inr (inr (inl h.1))),
        (λ h. reading-Refused _ _ _ _ _ _ _ (inr (inr (inr h.1))), tt),
      ),
    ),
  )

  Strict-map {ℓ κ} :
      {A : Type ℓ} {B : Type κ} (r : Read A) (k : A → Read B) (args : List Argument)
      → Strict r args
      → Strict (r >>= k) args
  Strict-map r k [] h = tt
  Strict-map r k (a ∷ args) h = (λ m. Refused-head r k (h.0 m), Strict-map r k args h.1)

  -- An argument that the schema does not require adds nothing.
  pub Strict-optional {ℓ} :
      {A : Type ℓ} (r : Read A) (args : List Argument) (a : Argument)
      → a.required ≡ false
      → Strict r args
      → Strict r (args ++ a ∷ [])
  Strict-optional r [] a free h = (λ m. cc (free, m.0), tt)
  Strict-optional r (b ∷ args) a free h = (h.0, Strict-optional r args a free h.1)

  direction-Refused : req.require_string (txt "direction") ≡ none → Refused (directed_from req)
  unfolding directed_from
  direction-Refused e =
      Refused-rest IsPlace (position_from req) _ (position_from-Reads req) (λ place.
        Refused-head (or_refuse _ (required_string req (txt "direction"))) _ (no_text _ req _ e))

  pub directed_from-Strict : Strict (directed_from req) call_hierarchy_tool.arguments
  unfolding directed_from
  directed_from-Strict =
      All-append (λ a. Missing a req → Refused (directed_from req)) position_args
        (call_direction_argument ∷ [])
        (Strict-map (position_from req) _ position_args position_from-Strict)
        ((λ h. direction-Refused h.1), tt)
