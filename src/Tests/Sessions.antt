-- ===== src/Tests/Sessions.antt =====
-- Runs of internal/lsp/client.go and stdio.go.
use dotfs_mcp_server.Base.{
  ℕ, ◌≡◌, ◌≢◌, ◌⊎◌, refl, true, false, Option, none, some, List, [], ◌∷◌, ◌++◌, Text, txt, contains,
  lookup, Distinct, ◌==◌, nat_eq, bytes_eq, Result, ok, pos, arith,
}
use dotfs_mcp_server.Lsp.Client.{
  Client, Response, replied, new_client, track_call, dispatch, finish_call,
}
use dotfs_mcp_server.Lsp.Client.Steps
use dotfs_mcp_server.Lsp.Client.Laws.{channels, Reachable-IsOnce, finish_call-forgets}
use dotfs_mcp_server.Lsp.Stdio.{Inbound, frame, read, read_loop}
use dotfs_mcp_server.Lsp.Stdio.Laws.{frames, read_loop-frames}
use dotfs_mcp_server.Lsp.Stdio.Writers
use dotfs_mcp_server.Lsp.Stdio.Writers.{mixed, in_turn, IsSpoiled, write-overlap}
use dotfs_mcp_server.Tests.Headers.{line_reader, line_reader-ReadsHeaders}

abbrev answer : Response
answer = record { result = txt "null"; error = none }

-- Two calls, of which the first one has its reply.
abbrev answered_once : Client
answered_once = dispatch (some (pos 1)) answer (track_call (track_call new_client).1).1

answered_once-Reachable : Steps.Reachable answered_once
answered_once-Reachable =
    Steps.next (Steps.next (Steps.next Steps.here Steps.track) Steps.track)
      (Steps.reply (some (pos 1)) answer)

Reachable-IsOnce_example :
    Distinct (channels answered_once.sent)
    × ((lookup 2 answered_once.pending ≡ none) ⊎ (contains (channels answered_once.sent) 2 ≡ false))
    × (lookup (track_call answered_once).0.0 answered_once.pending ≡ none)
    × (contains (channels answered_once.sent) (track_call answered_once).0.1 ≡ false)
Reachable-IsOnce_example = Reachable-IsOnce answered_once-Reachable 2

abbrev as_is : Text → Result Text
as_is raw = ok raw

finish_call-forgets_example :
    lookup 2 (finish_call as_is true 1 (replied answer) answered_once).1.pending
    ≡ lookup 2 answered_once.pending
unfolding dispatch track_call nat_eq
finish_call-forgets_example =
    finish_call-forgets answered_once-Reachable as_is true 1 2 (replied answer) refl

abbrev payloads : List Text
payloads = txt "{}" ∷ txt "{\"id\":1}" ∷ []

abbrev decode_none : Text → Option Inbound
decode_none raw = none

abbrev no_items : Text → Option ℕ
no_items raw = none

read_loop-frames_example :
    ((read_loop line_reader decode_none no_items 2 (frames payloads ++ []) new_client).payloads
      ≡ payloads)
    × ((read_loop line_reader decode_none no_items 2 (frames payloads ++ []) new_client).rest ≡ [])
    × ((read_loop line_reader decode_none no_items 2 (frames payloads ++ []) new_client).stop
        ≡ none)
read_loop-frames_example =
    read_loop-frames line_reader line_reader-ReadsHeaders decode_none no_items payloads []
      new_client (omega arith, (omega arith, tt))

not_c : (b : ℕ) → (b == b'C') ≡ false → b ∷ [] ≢ b'C' ∷ []
not_c b h e = ground (arith, h, e)

write-overlap_example :
    (Writers.Reachable (mixed (txt "{}") (txt "[]"))
      × ((i : ℕ) → (mixed (txt "{}") (txt "[]")).announced i ≡ none)
      × IsSpoiled line_reader (txt "{}") (txt "[]") (mixed (txt "{}") (txt "[]")))
    × (Writers.Reachable (in_turn (txt "{}") (txt "[]"))
        × (read line_reader (in_turn (txt "{}") (txt "[]")).stream
            ≡ ok (txt "{}", frame (txt "[]"))))
unfolding nat_eq
write-overlap_example =
    write-overlap line_reader (txt "{}") (txt "[]") line_reader-ReadsHeaders (omega arith)
      (omega arith) (not_c b'{' refl) (not_c b'[' refl)
