-- ===== src/Xref/Service/Queries.antt =====
-- internal/xref/service.go: `FindReferences` and `Implementations`.
use dotfs_mcp_server.Base.{
  ℕ, Bool, true, false, List, [], Text, txt, ltb, length, Result, ok, err, ◌>>=◌, if◌then◌else◌,
  ◌==◌, nat_eq,
}
use dotfs_mcp_server.Lsp.Protocol.{is_method_not_found}
use dotfs_mcp_server.Xref.Source.{Cache}
use dotfs_mcp_server.Xref.Compact.{Service, Reference, compact_locations, decode_locations}
use dotfs_mcp_server.Xref.Service.{
  Provider, Place, Target, params, call, Hint, no_hint, fallback_hint, unsupported_implementation,
}
use dotfs_mcp_server.Xref.Service.Resolve.{resolve}

-- `ReferenceResult`
pub record ReferenceResult : Type 0 where
  pub symbol : Text
  pub repo : Text
  pub file_path : Text
  pub total_references : ℕ
  pub truncated : Bool
  pub references : List Reference
  pub hint : Hint

-- The hint of an answer with that total
abbrev pub hint_of : ℕ → Hint
hint_of total = if total == 0 then fallback_hint else no_hint

abbrev reference_result : Target → (List Reference × ℕ) × Cache → ReferenceResult
reference_result t ((kept, total), src) = record {
  symbol = t.name;
  repo = t.repo;
  file_path = t.rel_path;
  total_references = total;
  truncated = ltb (length kept) total;
  references = if total == 0 then [] else kept;
  hint = hint_of total;
}

-- `FindReferences`
unfoldable pub find_references : Service → Provider → Bool → Place → Bool → Result ReferenceResult
find_references s provider alive place include_declaration = do
  t ← resolve s provider place
  locations ←
      call alive
        (t.session.call_locations (txt "textDocument/references") (params t) include_declaration)
  ok (reference_result t (compact_locations s locations t.src false))

-- `ImplementationResult`
pub record ImplementationResult : Type 0 where
  pub symbol : Text
  pub total_implementations : ℕ
  pub truncated : Bool
  pub implementations : List Reference
  pub hint : Hint

abbrev implementation_result : Target → (List Reference × ℕ) × Cache → ImplementationResult
implementation_result t ((kept, total), src) = record {
  symbol = t.name;
  total_implementations = total;
  truncated = ltb (length kept) total;
  implementations = if total == 0 then [] else kept;
  hint = hint_of total;
}

abbrev pub compact_implementations : Service → Target → Result Text → Result ImplementationResult
compact_implementations s t (err e) =
    if is_method_not_found e
    then ok (record {
      symbol = t.name;
      total_implementations = 0;
      truncated = false;
      implementations = [];
      hint = unsupported_implementation;
    })
    else err e
compact_implementations s t (ok raw) = do
  locations ← decode_locations s raw
  ok (implementation_result t (compact_locations s locations t.src true))

-- `Implementations`
unfoldable pub implementations : Service → Provider → Bool → Place → Result ImplementationResult
implementations s provider alive place = do
  t ← resolve s provider place
  compact_implementations s t
      (call alive (t.session.call_raw (txt "textDocument/implementation") (params t)))
