-- ===== src/Lsp/Client/Steps.antt =====
-- internal/lsp/client.go: calls, replies and the end of the session, in any order.
use dotfs_mcp_server.Base.{ℕ, Option, Text, ℤ, Error}
use dotfs_mcp_server.Lsp.Client.{
  Client, Response, new_client, track_call, forget_call, dispatch, fail,
}

-- A call asks whether the session is alive before it takes its id, so `track` may follow `die`.
pub data Step (c : Client) : Client → Type 0 where
  track : Step c (track_call c).1
  forget : (id : ℕ) → Step c (forget_call id c)
  reply : (id : Option ℤ) (r : Response) → Step c (dispatch id r c)
  die : (e : Error) (reason : Text) → Step c (fail e reason c)

pub data Reachable : Client → Type 0 where
  here : Reachable new_client
  next : {c d : Client} → Reachable c → Step c d → Reachable d
