-- ===== src/Mcpserver/Relations.antt =====
-- internal/mcpserver/server.go: the handlers of the tools that ask the language servers.
pub mod Laws
use dotfs_mcp_server.Base.{Bool, true, false, Option, none, some, Text, txt, Result, ok, err, Error}
use dotfs_mcp_server.Xref.Service.{Place}
use dotfs_mcp_server.Xref.Service.Hierarchy.{direction_both}
use dotfs_mcp_server.Mcpserver.{Request, ToolResult, CrossReference, Codec, render_compact_json}
use dotfs_mcp_server.Mcpserver.Arguments.{
  Read, refused, got, ◌>>=◌, required_string, or_refuse, position_from,
}
use dotfs_mcp_server.Mcpserver.Advice.{xref_error}

-- What a handler answers to a result of the engine.
unfoldable pub respond : {A : Type 0} → Text → (A → Result Text) → Place → Result A → ToolResult
unfolding xref_error render_compact_json
respond tool encode place (err e) = xref_error tool place e
respond tool encode place (ok a) = render_compact_json (encode a)

-- The answer on arguments that were read
abbrev pub answered : {A : Type 0} → Read A → (A → ToolResult) → ToolResult
answered (refused answer) ask = answer
answered (got a) ask = ask a

-- The position and the direction of `get_call_hierarchy`
unfoldable pub directed_from : Request → Read (Place × Text)
unfolding position_from required_string
directed_from req = do
  place ← position_from req
  direction ←
      or_refuse (txt "direction is required and must be 'incoming' or 'outgoing'")
        (required_string req (txt "direction"))
  got (place, direction)

module _ (engine : CrossReference) (json : Codec) where
  -- `handleFindReferences`
  unfoldable pub handle_find_references : Request → ToolResult
  unfolding position_from respond
  handle_find_references req = answered (position_from req) λ place.
      respond (txt "find_references") json.references_json place
        (engine.find_references place (req.get_bool (txt "include_declaration") false))

  -- `handleCallHierarchy`
  unfoldable pub handle_call_hierarchy : Request → ToolResult
  unfolding directed_from respond
  handle_call_hierarchy req = answered (directed_from req) λ (place, direction).
      respond (txt "get_call_hierarchy") json.calls_json place
        (engine.call_hierarchy place direction)

  -- `handleImplementations`
  unfoldable pub handle_implementations : Request → ToolResult
  unfolding position_from respond
  handle_implementations req = answered (position_from req) λ place.
      respond (txt "find_interface_implementations") json.implementations_json place
        (engine.implementations place)

  -- `handleTypeHierarchy`
  unfoldable pub handle_type_hierarchy : Request → ToolResult
  unfolding position_from respond
  handle_type_hierarchy req = answered (position_from req) λ place.
      respond (txt "get_type_hierarchy") json.types_json place
        (engine.type_hierarchy place (req.get_string (txt "direction") direction_both))
