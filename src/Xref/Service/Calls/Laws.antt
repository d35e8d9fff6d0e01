-- ===== src/Xref/Service/Calls/Laws.antt =====
-- internal/xref/service.go: bounds of the edges of a call hierarchy.
use dotfs_mcp_server.Base.{
  ℕ, ◌≡◌, refl, ap, sym, ◌∙◌, ◌+◌, Bool, not, ◌&&◌, ◌++◌, List, [], ◌∷◌, Text, ◌==◌, bytes_eq,
  nat_eq, leb, ltb, length, to_lower, trim_space, reject_if, Ensures, Ensures-bind, Ensures-any,
  arith, if◌then◌else◌, length-map, length-take, decimalz, Bool-cases, inl, inr,
}
use dotfs_mcp_server.Lsp.Protocol.{Range, Item, IncomingCall, OutgoingCall}
use dotfs_mcp_server.Xref.Compact.{Service, Reference, Tally, place_key, fresh}
use dotfs_mcp_server.Xref.Compact.Laws.{Tells, Tells-fresh, take_in-Tells, note_found, place_of}
use dotfs_mcp_server.Xref.Service.{Provider, Place, Target, call}
use dotfs_mcp_server.Xref.Service.Resolve.{resolve}
use dotfs_mcp_server.Xref.Service.Laws.{IsCapped, IsCapped-none}
use dotfs_mcp_server.Xref.Service.Calls.{
  Call, CallHierarchyResult, caller_call, callee_call, sites_of, sites_loop, incoming_loop,
  incoming, outgoing_loop, outgoing, call_edges, call_hierarchy, direction_incoming,
  direction_outgoing,
}

abbrev call_key : Call → Text
call_key c = c.file_path ++ b':' ∷ decimalz c.line

-- A loop that has met some distinct places.
abbrev Told : Service → Tally Call → Type 0
Told s st = (places : List Text) × Tells s call_key places st

caller_call-key :
    (name : Text) (ref : Reference) (src : _)
    → call_key (caller_call name ref src).0 ≡ place_key ref
unfolding place_key
caller_call-key name ref src = refl

callee_call-key :
    (name : Text) (ref : Reference) (src : _)
    → call_key (callee_call name ref src).0 ≡ place_key ref
unfolding place_key
callee_call-key name ref src = refl

sites_loop-Told :
    (s : Service) (caller : Item) (sites : List Range) (st : Tally Call)
    → Told s st
    → Told s (sites_loop s caller sites st)
unfolding sites_loop
sites_loop-Told s caller [] st t = t
sites_loop-Told s caller (site ∷ sites) st (places, t) = sites_loop-Told s caller sites _ (
  note_found places (place_of s caller.uri site.start),
  take_in-Tells s call_key (caller_call caller.name) places st caller.uri site.start
      (caller_call-key caller.name) t,
)

incoming_loop-Told :
    (s : Service) (calls : List IncomingCall) (st : Tally Call)
    → Told s st
    → Told s (incoming_loop s calls st)
unfolding incoming_loop
incoming_loop-Told s [] st t = t
incoming_loop-Told s (c ∷ calls) st t =
    incoming_loop-Told s calls _ (sites_loop-Told s c.caller (sites_of c) st t)

outgoing_loop-Told :
    (s : Service) (calls : List OutgoingCall) (st : Tally Call)
    → Told s st
    → Told s (outgoing_loop s calls st)
unfolding outgoing_loop
outgoing_loop-Told s [] st t = t
outgoing_loop-Told s (c ∷ calls) st (places, t) = outgoing_loop-Told s calls _ (
  note_found places (place_of s c.callee.uri c.callee.selection_range.start),
  take_in-Tells s call_key (callee_call c.callee.name) places st c.callee.uri
      c.callee.selection_range.start (callee_call-key c.callee.name) t,
)

abbrev Filled : Service → List Call × ℕ → Type 0
Filled s (kept, total) = length kept ≡ (if leb s.limit total then s.limit else total)

Told-Filled : (s : Service) (st : Tally Call) → Told s st → Filled s (st.out, st.total)
Told-Filled s st (places, t) =
    sym (length-map call_key st.out)
    ∙ ap length t.kept
    ∙ length-take s.limit places
    ∙ ap (λ n. if leb s.limit n then s.limit else n) (sym t.counted)

incoming-Filled :
    (s : Service) (alive : Bool) (t : Target) (root : Item)
    → Ensures (Filled s) (incoming s alive t root)
unfolding incoming
incoming-Filled s alive t root =
    Ensures-bind (λ _. Unit) _ (call alive _) _ (Ensures-any (call alive _))
      (λ calls _.
        Told-Filled s _
          (incoming_loop-Told s calls (fresh t.src) ([], Tells-fresh s call_key t.src)))

outgoing-Filled :
    (s : Service) (alive : Bool) (t : Target) (root : Item)
    → Ensures (Filled s) (outgoing s alive t root)
unfolding outgoing
outgoing-Filled s alive t root =
    Ensures-bind (λ _. Unit) _ (call alive _) _ (Ensures-any (call alive _))
      (λ calls _.
        Told-Filled s _
          (outgoing_loop-Told s calls (fresh t.src) ([], Tells-fresh s call_key t.src)))

abbrev pub CallsCapped : ℕ → CallHierarchyResult → Type 0
CallsCapped limit r = IsCapped limit r.calls (r.total_callers + r.total_callees) r.truncated

IsCapped-sum :
    (limit total sum : ℕ) (kept : List Call)
    → sum ≡ total
    → length kept ≡ (if leb limit total then limit else total)
    → IsCapped limit kept sum (ltb (length kept) total)
IsCapped-sum limit total sum kept e h = record {
  filled = ground (arith, e, h);
  marked = ground (arith, e, h);
}

call_edges-IsCapped :
    (s : Service) (alive : Bool) (t : Target) (direction : Text) (items : List Item)
    → Ensures (CallsCapped s.limit) (call_edges s alive t direction items)
unfolding call_edges
call_edges-IsCapped s alive t direction [] = IsCapped-none s.limit
call_edges-IsCapped s alive t direction (root ∷ _) =
    elim (Bool-cases (direction == direction_incoming)) [
      | inl is ↦ rw is (
          Ensures-bind (Filled s) _ (incoming s alive t root) _ (incoming-Filled s alive t root)
            (λ found h. IsCapped-sum s.limit found.1 _ found.0 (omega arith) h))
      | inr other ↦ rw other (
          Ensures-bind (Filled s) _ (outgoing s alive t root) _ (outgoing-Filled s alive t root)
            (λ found h. IsCapped-sum s.limit found.1 _ found.0 (omega arith) h))
    ]

-- An answer of `CallHierarchy` holds as many edges as the limit and its total allow, and says that
-- it is cut just when it leaves some out; only the total of the direction that was asked for counts.
pub call_hierarchy-IsCapped :
    (s : Service) (provider : Provider) (alive : Bool) (place : Place) (wanted : Text)
    → Ensures (CallsCapped s.limit) (call_hierarchy s provider alive place wanted)
unfolding call_hierarchy
call_hierarchy-IsCapped s provider alive place wanted =
    let direction = to_lower (trim_space wanted) in
    let checked =
      reject_if (not (direction == direction_incoming) && not (direction == direction_outgoing))
        _ in
    Ensures-bind (λ _. Unit) _ checked _ (Ensures-any checked)
      (λ _ _.
        Ensures-bind (λ _. Unit) _ (resolve s provider place) _
          (Ensures-any (resolve s provider place))
          (λ t _.
            Ensures-bind (λ _. Unit) _ (call alive _) _ (Ensures-any (call alive _))
              (λ items _. call_edges-IsCapped s alive t direction items)))
