-- ===== src/Xref/Service/Calls.antt =====
-- internal/xref/service.go: `CallHierarchy`, `incoming` and `outgoing`.
pub mod Laws
use dotfs_mcp_server.Base.{
  ℕ, Bool, true, false, not, ◌&&◌, List, [], ◌∷◌, Text, txt, ◌==◌, nat_eq, bytes_eq, ltb, length,
  is_empty, trim_space, to_lower, Result, ok, err, Error, message, reject_if, ◌>>=◌, ◌>>◌, ℤ,
  if◌then◌else◌,
}
use dotfs_mcp_server.Lsp.Protocol.{Range, Item, IncomingCall, OutgoingCall}
use dotfs_mcp_server.Xref.Source.{Cache}
use dotfs_mcp_server.Xref.Compact.{Service, Reference, Tally, take_in, fresh}
use dotfs_mcp_server.Xref.Service.{
  Provider, Session, Place, Target, params, call, Hint, no_hint, fallback_hint,
}
use dotfs_mcp_server.Xref.Service.Resolve.{resolve}
use dotfs_mcp_server.Xref.Service.Queries.{hint_of}

-- `Call`
pub record Call : Type 0 where
  pub caller_name : Text
  pub callee_name : Text
  pub repo : Text
  pub file_path : Text
  pub line : ℤ
  pub snippet : Text

abbrev pub direction_incoming : Text
direction_incoming = txt "incoming"

abbrev pub direction_outgoing : Text
direction_outgoing = txt "outgoing"

abbrev pub caller_call : Text → Reference → Cache → Call × Cache
caller_call name ref src = (
  record {
    caller_name = name;
    callee_name = [];
    repo = ref.repo;
    file_path = ref.file_path;
    line = ref.line;
    snippet = ref.snippet;
  },
  src,
)

abbrev pub callee_call : Text → Reference → Cache → Call × Cache
callee_call name ref src = (
  record {
    caller_name = [];
    callee_name = name;
    repo = ref.repo;
    file_path = ref.file_path;
    line = ref.line;
    snippet = ref.snippet;
  },
  src,
)

-- The call sites of a caller, or its declaration where the server names none.
unfoldable pub sites_of : IncomingCall → List Range
sites_of c = if is_empty c.from_ranges then c.caller.selection_range ∷ [] else c.from_ranges

unfoldable pub sites_loop : Service → Item → List Range → Tally Call → Tally Call
sites_loop s caller [] st = st
sites_loop s caller (site ∷ sites) st =
    sites_loop s caller sites (take_in s (caller_call caller.name) caller.uri site.start st)

unfoldable pub incoming_loop : Service → List IncomingCall → Tally Call → Tally Call
incoming_loop s [] st = st
incoming_loop s (c ∷ calls) st = incoming_loop s calls (sites_loop s c.caller (sites_of c) st)

-- `incoming`
unfoldable pub incoming : Service → Bool → Target → Item → Result (List Call × ℕ)
incoming s alive t root = do
  calls ← call alive (t.session.call_incoming (txt "callHierarchy/incomingCalls") root)
  ok ((incoming_loop s calls (fresh t.src)).out, (incoming_loop s calls (fresh t.src)).total)

unfoldable pub outgoing_loop : Service → List OutgoingCall → Tally Call → Tally Call
outgoing_loop s [] st = st
outgoing_loop s (c ∷ calls) st =
    outgoing_loop s calls
      (take_in s (callee_call c.callee.name) c.callee.uri c.callee.selection_range.start st)

-- `outgoing`
unfoldable pub outgoing : Service → Bool → Target → Item → Result (List Call × ℕ)
outgoing s alive t root = do
  calls ← call alive (t.session.call_outgoing (txt "callHierarchy/outgoingCalls") root)
  ok ((outgoing_loop s calls (fresh t.src)).out, (outgoing_loop s calls (fresh t.src)).total)

-- `CallHierarchyResult`
pub record CallHierarchyResult : Type 0 where
  pub symbol : Text
  pub direction : Text
  pub total_callers : ℕ
  pub total_callees : ℕ
  pub truncated : Bool
  pub calls : List Call
  pub hint : Hint

-- The answer on the first item of the server.
unfoldable pub call_edges : Service → Bool → Target → Text → List Item → Result CallHierarchyResult
call_edges s alive t direction [] = ok (record {
  symbol = t.name;
  direction = direction;
  total_callers = 0;
  total_callees = 0;
  truncated = false;
  calls = [];
  hint = fallback_hint;
})
call_edges s alive t direction (root ∷ _) = do
  found ←
      if direction == direction_incoming then incoming s alive t root else outgoing s alive t root
  ok (record {
    symbol = if root.name == [] then t.name else root.name;
    direction = direction;
    total_callers = if direction == direction_incoming then found.1 else 0;
    total_callees = if direction == direction_incoming then 0 else found.1;
    truncated = ltb (length found.0) found.1;
    calls = found.0;
    hint = hint_of found.1;
  })

-- `CallHierarchy`
unfoldable pub call_hierarchy :
    Service → Provider → Bool → Place → Text → Result CallHierarchyResult
call_hierarchy s provider alive place wanted = do
  let direction = to_lower (trim_space wanted)
  reject_if (not (direction == direction_incoming) && not (direction == direction_outgoing))
      (message (txt "xref: direction must be incoming or outgoing"))
  t ← resolve s provider place
  items ← call alive (t.session.call_items (txt "textDocument/prepareCallHierarchy") (params t))
  call_edges s alive t direction items
