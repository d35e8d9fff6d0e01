-- ===== src/Mcpserver/Relations/Laws.antt =====
-- internal/mcpserver/server.go: what the relational tools answer over the cross-reference service.
use dotfs_mcp_server.Base.{
  ◌≡◌, refl, Bool, false, inl, inr, Text, txt, Result, ok, err, Error, Ensures, Result-cases,
}
use dotfs_mcp_server.Xref.Compact.{Service}
use dotfs_mcp_server.Xref.Service.{Provider, Place}
use dotfs_mcp_server.Xref.Service.Hierarchy.{direction_both}
use dotfs_mcp_server.Xref.Service.Laws.{
  ReferencesCapped, ImplementationsCapped, find_references-IsCapped, implementations-IsCapped,
}
use dotfs_mcp_server.Xref.Service.Calls.Laws.{CallsCapped, call_hierarchy-IsCapped}
use dotfs_mcp_server.Xref.Service.Hierarchy.Laws.{HierarchyBounded, type_hierarchy-Bounded}
use dotfs_mcp_server.Mcpserver.{
  Request, ToolResult, text_result, CrossReference, Codec, service_reference, render_compact_json,
}
use dotfs_mcp_server.Mcpserver.Arguments.{Read, refused, got, position_from}
use dotfs_mcp_server.Mcpserver.Advice.Laws.{cause, guidance, xref_error-guidance}
use dotfs_mcp_server.Mcpserver.Arguments.Laws.{
  IsError, Reads, Reads-bind, NonEmpty, IsPlace, position_from-Reads, required_string-Reads,
}
use dotfs_mcp_server.Mcpserver.Relations.{
  respond, answered, directed_from, handle_find_references, handle_call_hierarchy,
  handle_implementations, handle_type_hierarchy,
}

-- What a relational tool answers: the refusal of the arguments that it asked for; the guidance for the
-- error that the engine gave on them; a failure to encode the engine's result; or the JSON of just
-- the result that the engine gave on them, which keeps to the bounds `P`.
pub data Answer {A B : Type 0} (tool : Text) (asked : Read B) (place_of : B → Place)
    (ask : B → Result A) (P : A → Type 0) (encode : A → Result Text) (t : ToolResult) : Type 0 where
  refusal : asked ≡ refused t → IsError t → Answer tool asked place_of ask P encode t
  failure :
      {b : B} {e : Error}
      → asked ≡ got b
      → ask b ≡ err e
      → t ≡ guidance tool (place_of b) e (cause e)
      → Answer tool asked place_of ask P encode t
  not_encoded :
      {b : B} {a : A} {e : Error}
      → asked ≡ got b
      → ask b ≡ ok a
      → encode a ≡ err e
      → IsError t
      → Answer tool asked place_of ask P encode t
  answer :
      {b : B} {a : A} {text : Text}
      → asked ≡ got b
      → ask b ≡ ok a
      → P a
      → encode a ≡ ok text
      → t ≡ text_result text
      → Answer tool asked place_of ask P encode t

module _ {A B : Type 0} (tool : Text) (asked : Read B) (place_of : B → Place) (ask : B → Result A)
    (P : A → Type 0) (encode : A → Result Text) where
  render-Answer :
      (b : B) (a : A)
      → asked ≡ got b
      → ask b ≡ ok a
      → P a
      → Answer tool asked place_of ask P encode (render_compact_json (encode a))
  unfolding render_compact_json
  render-Answer b a is gives h = elim (Result-cases (encode a)) [
    | inl (e, bad) ↦ rw (bad, render_compact_json) (not_encoded is gives bad tt)
    | inr (text, fine) ↦ rw (fine, render_compact_json) (answer is gives h fine refl)
  ]

  respond-Answer :
      (b : B) (r : Result A)
      → asked ≡ got b
      → ask b ≡ r
      → Ensures P r
      → Answer tool asked place_of ask P encode (respond tool encode (place_of b) r)
  unfolding respond
  respond-Answer b (err e) is gives h = failure is gives (xref_error-guidance tool (place_of b) e)
  respond-Answer b (ok a) is gives h = render-Answer b a is gives h

  answered-Answer :
      (Q : B → Type 0) (r : Read B)
      → asked ≡ r
      → Reads Q r
      → ((b : B) → Ensures P (ask b))
      → Answer tool asked place_of ask P encode
          (answered r (λ b. respond tool encode (place_of b) (ask b)))
  answered-Answer Q (refused t) is h bounded = refusal is h
  answered-Answer Q (got b) is h bounded = respond-Answer b (ask b) is refl (bounded b)

directed_from-Reads : (req : Request) → Reads (λ p. IsPlace p.0) (directed_from req)
unfolding directed_from
directed_from-Reads req = Reads-bind IsPlace _ _ _ (position_from-Reads req) λ place is.
    Reads-bind NonEmpty (λ (p : Place × Text). IsPlace p.0) _ _
      (required_string-Reads _ req (txt "direction")) (λ direction _. is)

module _ (s : Service) (provider : Provider) (alive : Bool) (json : Codec) (req : Request) where
  abbrev engine : CrossReference
  engine = service_reference s provider alive

  -- The four relational tools, each on its own arguments
  abbrev pub ReferencesAnswer : ToolResult → Type 0
  ReferencesAnswer =
      Answer (txt "find_references") (position_from req) (λ place. place)
        (λ place. engine.find_references place (req.get_bool (txt "include_declaration") false))
        (ReferencesCapped s.limit) json.references_json

  abbrev pub CallsAnswer : ToolResult → Type 0
  CallsAnswer =
      Answer (txt "get_call_hierarchy") (directed_from req) (λ (p : Place × Text). p.0)
        (λ (p : Place × Text). engine.call_hierarchy p.0 p.1) (CallsCapped s.limit) json.calls_json

  abbrev pub ImplementationsAnswer : ToolResult → Type 0
  ImplementationsAnswer =
      Answer (txt "find_interface_implementations") (position_from req) (λ place. place)
        engine.implementations (ImplementationsCapped s.limit) json.implementations_json

  abbrev pub HierarchyAnswer : ToolResult → Type 0
  HierarchyAnswer =
      Answer (txt "get_type_hierarchy") (position_from req) (λ place. place)
        (λ place. engine.type_hierarchy place (req.get_string (txt "direction") direction_both))
        (HierarchyBounded s.limit) json.types_json

  -- Whatever the request, a relational tool answers in one of four ways: it refuses arguments that
  -- are missing or bad with an error; it answers the guidance for the error that the engine gives on
  -- the arguments of the request; it answers an error if the engine's result cannot be encoded; or it
  -- answers the JSON of just the result that the engine gives on those arguments. Of
  -- references, calls and implementations that result holds as many as the limit of the service and
  -- their total allow, and says that it is cut just when some are left out; of the type hierarchy it
  -- holds no more than the limit and than the total.
  pub relational_tools-IsJsonOf :
      ReferencesAnswer (handle_find_references engine json req)
      × CallsAnswer (handle_call_hierarchy engine json req)
      × ImplementationsAnswer (handle_implementations engine json req)
      × HierarchyAnswer (handle_type_hierarchy engine json req)
  unfolding handle_find_references handle_call_hierarchy handle_implementations
      handle_type_hierarchy
  relational_tools-IsJsonOf = (
    answered-Answer _ _ _ _ _ _ IsPlace (position_from req) refl (position_from-Reads req) λ place.
        find_references-IsCapped s provider alive place
          (req.get_bool (txt "include_declaration") false),
    answered-Answer _ _ _ _ _ _ (λ p. IsPlace p.0) (directed_from req) refl
        (directed_from-Reads req) λ p. call_hierarchy-IsCapped s provider alive p.0 p.1,
    answered-Answer _ _ _ _ _ _ IsPlace (position_from req) refl (position_from-Reads req)
        λ place. implementations-IsCapped s provider alive place,
    answered-Answer _ _ _ _ _ _ IsPlace (position_from req) refl (position_from-Reads req) λ place.
        type_hierarchy-Bounded s provider alive place
          (req.get_string (txt "direction") direction_both),
  )
