-- ===== src/Mcpserver/Tools/Laws.antt =====
-- internal/mcpserver/server.go: the handlers keep to the schemas that their tools announce.
use mathlib.Core.Path.{subst}
use dotfs_mcp_server.Base.{
  ℕ, zero, suc, ◌≡◌, refl, Ensures, Option, none, some, List, [], ◌∷◌, Text, txt, get_elem?, All,
  All-append, Result, ok, err,
}
use dotfs_mcp_server.Ast.{SymbolRecord}
use dotfs_mcp_server.Mcpserver.{Request, ToolResult, CrossReference, Codec, Deps}
use dotfs_mcp_server.Mcpserver.Arguments.{Read, refused, got, required_repo, position_from}
use dotfs_mcp_server.Mcpserver.Arguments.Laws.{IsError}
use dotfs_mcp_server.Mcpserver.Resolve.{Query}
use dotfs_mcp_server.Mcpserver.Queries.{
  global_search_query, lookup_symbol_query, type_definition_query, macro_or_const_query,
  SnippetRange, snippet_range,
}
use dotfs_mcp_server.Mcpserver.Retrieval.{
  with_query, answer_one, answer_all, handle_global_search, handle_lookup_symbol,
  handle_type_definition, handle_macro_or_const, handle_read_snippet, handle_list_capabilities,
  answer_snippet, answer_capabilities,
}
use dotfs_mcp_server.Mcpserver.Relations.{
  answered, directed_from, handle_find_references, handle_call_hierarchy, handle_implementations,
  handle_type_hierarchy,
}
use dotfs_mcp_server.Mcpserver.Tools.{
  Argument, Tool, Handler, Collaborators, checked, position_args, search_tool, lookup_symbol_tool,
  type_definition_tool, macro_or_const_tool, read_snippet_tool, declaration_argument,
  type_direction_argument, registered, find_references_tool, call_hierarchy_tool,
  implementations_tool, type_hierarchy_tool, retrieval_tools, relation_tools, new_server,
}
use dotfs_mcp_server.Mcpserver.Tools.Strict.{
  Missing, Refused, Strict, Strict-optional, required_repo-Refused, global_search_query-Strict,
  lookup_symbol_query-Strict, type_definition_query-Strict, macro_or_const_query-Strict,
  snippet_range-Strict, position_from-Strict, directed_from-Strict,
}

-- The request is refused with an error, and the state is as it was.
abbrev pub Refuses : {S : Type 0} → ToolResult × S → S → Type 0
Refuses r s = IsError r.0 × (r.1 ≡ s)

module _ {S : Type 0} (req : Request) (s : S) where
  -- A tool whose handler refuses a request that misses what the schema requires
  abbrev IsStrict : Tool × Handler S → Type 0
  IsStrict (tool, handle) = All (λ a. Missing a req → Refuses (handle req s) s) tool.arguments

  answered-Strict :
      {A : Type 0} (r : Read A) (ask : A → ToolResult) (args : List Argument)
      → Strict req r args
      → All (λ a. Missing a req → Refuses (answered r ask, s) s) args
  answered-Strict r ask [] h = tt
  answered-Strict (refused answer) ask (a ∷ args) h =
      (λ m. (h.0 m, refl), answered-Strict (refused answer) ask args h.1)
  answered-Strict (got b) ask (a ∷ args) h =
      (λ m. absurd (h.0 m), answered-Strict (got b) ask args h.1)

  module _ (d : Deps S) where
    with_query-Strict :
        (respond : Text → Result (List SymbolRecord) → ToolResult) (r : Read Query)
        (args : List Argument)
        → Strict req r args
        → All (λ a. Missing a req → Refuses (with_query d respond r s) s) args
    unfolding with_query
    with_query-Strict respond r [] h = tt
    with_query-Strict respond (refused answer) (a ∷ args) h =
        (λ m. (h.0 m, refl), with_query-Strict respond (refused answer) args h.1)
    with_query-Strict respond (got q) (a ∷ args) h =
        (λ m. absurd (h.0 m), with_query-Strict respond (got q) args h.1)

    answer_snippet-Strict :
        (r : Read SnippetRange) (args : List Argument)
        → Strict req r args
        → All (λ a. Missing a req → Refuses (answer_snippet d r, s) s) args
    answer_snippet-Strict r [] h = tt
    answer_snippet-Strict (refused answer) (a ∷ args) h =
        (λ m. (h.0 m, refl), answer_snippet-Strict (refused answer) args h.1)
    answer_snippet-Strict (got q) (a ∷ args) h =
        (λ m. absurd (h.0 m), answer_snippet-Strict (got q) args h.1)

    answer_capabilities-Refuses :
        (r : Read Text) → Refused r → Refuses (answer_capabilities d r s, s) s
    answer_capabilities-Refuses (refused answer) h = (h, refl)
    answer_capabilities-Refuses (got q) h = absurd h

    retrieval_tools-IsStrict : All IsStrict (retrieval_tools d)
    unfolding handle_global_search handle_lookup_symbol handle_type_definition handle_macro_or_const
        handle_read_snippet handle_list_capabilities
    retrieval_tools-IsStrict = (
      with_query-Strict (answer_one d) (global_search_query req) search_tool.arguments
          (global_search_query-Strict req),
      (
        with_query-Strict (answer_all d (txt "symbol") (txt "symbol lookup failed"))
            (lookup_symbol_query req) lookup_symbol_tool.arguments (lookup_symbol_query-Strict req),
        (
          with_query-Strict (answer_all d (txt "type") (txt "type definition lookup failed"))
              (type_definition_query req) type_definition_tool.arguments
              (type_definition_query-Strict req),
          (
            with_query-Strict
                (answer_all d (txt "macro or constant") (txt "macro or constant lookup failed"))
                (macro_or_const_query req) macro_or_const_tool.arguments
                (macro_or_const_query-Strict req),
            (
              answer_snippet-Strict (snippet_range req) read_snippet_tool.arguments
                  (snippet_range-Strict req),
              (
                (
                  λ h.
                      answer_capabilities-Refuses (required_repo req)
                        (required_repo-Refused req h.1),
                  tt,
                ),
                tt,
              ),
            ),
          ),
        ),
      ),
    )

  relation_tools-IsStrict :
      (json : Codec) (engine : Option CrossReference) → All IsStrict (relation_tools json engine)
  unfolding handle_find_references handle_call_hierarchy handle_implementations
      handle_type_hierarchy
  relation_tools-IsStrict json none = tt
  relation_tools-IsStrict json (some engine) =
      let place = position_from req in
      let strict = position_from-Strict req in
      (
        answered-Strict place _ find_references_tool.arguments
            (Strict-optional req place position_args declaration_argument refl strict),
        (
          answered-Strict (directed_from req) _ call_hierarchy_tool.arguments
              (directed_from-Strict req),
          (
            answered-Strict place _ implementations_tool.arguments strict,
            (
              answered-Strict place _ type_hierarchy_tool.arguments
                  (Strict-optional req place position_args type_direction_argument refl strict),
              tt,
            ),
          ),
        ),
      )

  new_server-All :
      (c : Collaborators S) (r : Result (Deps S)) (tools : List (Tool × Handler S))
      → registered c r ≡ ok tools
      → All IsStrict tools
  new_server-All c (err e) tools h = cc
  new_server-All c (ok d) tools h =
      subst (λ r. Ensures (All IsStrict) r) h
        (All-append IsStrict (retrieval_tools d) (relation_tools c.json c.engine)
          (retrieval_tools-IsStrict d) (relation_tools-IsStrict c.json c.engine))

abbrev OptionAll {ℓ} : {A : Type ℓ} → (A → Type 0) → Option A → Type 0
OptionAll P none = Unit
OptionAll P (some x) = P x

All-get_elem? {ℓ} :
    {A : Type ℓ} (P : A → Type 0) (xs : List A) (i : ℕ) (x : A)
    → All P xs
    → get_elem? xs i ≡ some x
    → P x
All-get_elem? P [] i x h e = cc
All-get_elem? P (y ∷ ys) zero x h e = subst (λ o. OptionAll P o) e h.0
All-get_elem? P (y ∷ ys) (suc i) x h e = All-get_elem? P ys i x h.1 e

-- A request that misses an argument which the schema of a tool requires is refused by the tool's
-- handler with an error, and nothing is changed. This is so for each tool that a server offers and
-- each of its required arguments, however the others are.
pub new_server-Refuses :
    {S : Type 0} (c : Collaborators S) (tools : List (Tool × Handler S)) (i j : ℕ) (tool : Tool)
    (handle : Handler S) (a : Argument) (req : Request) (s : S)
    → new_server c ≡ ok tools
    → get_elem? tools i ≡ some (tool, handle)
    → get_elem? tool.arguments j ≡ some a
    → Missing a req
    → IsError (handle req s).0 × ((handle req s).1 ≡ s)
unfolding new_server
new_server-Refuses c tools i j tool handle a req s made offered required missing =
    All-get_elem? (λ b. Missing b req → Refuses (handle req s) s) tool.arguments j a
      (All-get_elem? (IsStrict req s) tools i (tool, handle)
        (new_server-All req s c (checked c c.cache c.scanner c.matrix c.has_log) tools made)
        offered)
      required missing
