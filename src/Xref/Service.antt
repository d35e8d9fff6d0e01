-- ===== src/Xref/Service.antt =====
-- internal/xref/service.go: a query's anchor, and the calls of a language server.
pub mod Resolve
pub mod Queries
pub mod Calls
pub mod Hierarchy
pub mod Laws
use dotfs_mcp_server.Base.{
  ℕ, Bool, true, false, not, ◌&&◌, List, Text, Result, ok, err, Error, wrap, sentinel, error_is,
  xref_timeout, deadline_exceeded, ℤ, if◌then◌else◌, txt,
}
use dotfs_mcp_server.Ast.{Language}
use dotfs_mcp_server.Lsp.Protocol.{
  Position, Location, Item, IncomingCall, OutgoingCall, PositionParams,
}
use dotfs_mcp_server.Xref.Source.{Cache}

-- `Session`: a client of a language server. `Call` decodes what it answers into the caller's
-- type, so there is a function for each of those types; `call_raw` leaves the JSON as it is.
pub record Session : Type 0 where
  pub ensure_open : Text → Text → Result (Unit {0})
  pub call_locations : Text → PositionParams → Bool → Result (List Location)
  pub call_raw : Text → PositionParams → Result Text
  pub call_items : Text → PositionParams → Result (List Item)
  pub call_relatives : Text → Item → Result (List Item)
  pub call_incoming : Text → Item → Result (List IncomingCall)
  pub call_outgoing : Text → Item → Result (List OutgoingCall)

-- `Provider`
pub record Provider : Type 0 where
  pub client_session : Text → Text → Language → Result Session

-- `Position` of a request, one-based
pub record Place : Type 0 where
  pub repo : Text
  pub file_path : Text
  pub line : ℤ
  pub character : ℤ

-- `target`
pub record Target : Type 0 where
  pub repo : Text
  pub rel_path : Text
  pub abs_path : Text
  pub session : Session
  pub position : Position
  pub doc : Text
  pub name : Text
  pub src : Cache

-- `target.params`
unfoldable pub params : Target → PositionParams
params t = record { document = t.doc; position = t.position }

-- The error of `Service.call`: a deadline of its own is a timeout. `alive` is `ctx.Err() == nil`.
unfoldable pub call_error : Bool → Error → Error
call_error alive e =
    if error_is e deadline_exceeded && alive
    then wrap (txt "took longer") (sentinel xref_timeout)
    else e

-- `Service.call`, on what the session answers
unfoldable pub call : {A : Type 0} → Bool → Result A → Result A
unfolding call_error
call alive (ok a) = ok a
call alive (err e) = err (call_error alive e)

-- `fallbackHint`, and the hints on what a server does not implement
pub data Hint : Type 0 where
  no_hint fallback_hint unsupported_implementation no_type_hierarchy : Hint
