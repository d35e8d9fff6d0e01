-- ===== src/Lsp/Client.antt =====
-- internal/lsp/client.go: a session with one language server. The lock `mu` makes each access to the
-- pending calls one step.
pub mod Steps
pub mod Laws
use dotfs_mcp_server.Base.{
  ℕ, suc, Bool, true, false, not, ◌&&◌, ◌||◌, Option, none, some, List, [], ◌∷◌, ◌++◌, map, Text,
  txt, ◌==◌, nat_eq, bytes_eq, contains, is_empty, ℤ, pos, negsuc, Dict, lookup, insert, erase,
  Result, ok, err, Error, message, wrap, sentinel, response, daemon_exited, wrapped, ◌>>=◌,
  if◌then◌else◌,
}
use dotfs_mcp_server.Utils.Files.{FileSystem}

-- `ErrCodeRequestFailed`
abbrev pub err_code_request_failed : ℤ
err_code_request_failed = negsuc 32802

-- `ResponseMessage` without its id: the result, or an error with its code
pub record Response : Type 0 where
  pub result : Text
  pub error : Option (ℤ × Text)

-- The channel that a call waits on; the n-th call makes the n-th channel.
abbrev pub Channel : Type 0
Channel = ℕ

-- The fields of `Client` that calls share, and what has been sent on the channels, in order.
pub record Client : Type 0 where
  pub next_id : ℕ
  pub pending : Dict ℕ Channel
  pub opened : List Text
  pub done : Bool
  pub exit_err : Option Error
  pub sent : List (Channel × Response)

-- `newClient`
abbrev pub new_client : Client
new_client = record {
  next_id = 0;
  pending = [];
  opened = [];
  done = false;
  exit_err = none;
  sent = [];
}

-- `trackCall`; the id does not wrap, for that takes 2 ^ 63 calls.
unfoldable pub track_call : Client → (ℕ × Channel) × Client
unfolding insert
track_call c =
    let id = suc c.next_id in
    ((id, id), record c { next_id = id; pending = insert id id c.pending })

-- `forgetCall`
unfoldable pub forget_call : ℕ → Client → Client
unfolding erase
forget_call id c = record c { pending = erase id c.pending }

-- The reply goes to the call that waits, if there is one.
unfoldable pub deliver : ℕ → Response → Client → Client
unfolding lookup erase
deliver id reply c = elim (lookup id c.pending) [
  | none ↦ c
  | some ch ↦ record c { pending = erase id c.pending; sent = c.sent ++ (ch, reply) ∷ [] }
]

-- `dispatch`, on what decoding the id gives. No call has a negative id.
unfoldable pub dispatch : Option ℤ → Response → Client → Client
unfolding deliver
dispatch none reply c = c
dispatch (some (negsuc n)) reply c = c
dispatch (some (pos id)) reply c = deliver id reply c

-- The reply that `fail` sends to a call
abbrev pub aborted : Text → Response
aborted reason = record { result = []; error = some (err_code_request_failed, reason) }

abbrev pub first_error : Error → Option Error → Option Error
first_error e none = some e
first_error e (some first) = some first

-- `fail`, with the words of its error
unfoldable pub fail : Error → Text → Client → Client
fail e reason c = record c {
  exit_err = first_error e c.exit_err;
  pending = [];
  done = true;
  sent = c.sent ++ map (λ p. (p.1, aborted reason)) c.pending;
}

-- `Alive`
abbrev pub alive : Client → Bool
alive c = not c.done

-- `exitReason`
abbrev pub exit_reason : Option Error → Error
exit_reason none = sentinel daemon_exited
exit_reason (some e) = e

-- What ends the wait of `Call`.
pub data Wake : Type 0 where
  expired : Error → Wake
  ended : Wake
  replied : Response → Wake

-- The value that a call decodes: `none` where the reply has none.
abbrev payload : Bool → Text → Option Text
payload wanted result =
    if not wanted || is_empty result || result == txt "null" then none else some result

abbrev received : (Text → Result Text) → Bool → Response → Result (Option Text)
received decode wanted r = elim r.error [
  | some (code, m) ↦ err (wrap (txt "lsp") (response code m))
  | none ↦ elim (payload wanted r.result) [
    | none ↦ ok none
    | some raw ↦ elim (wrapped (txt "lsp: decode") (decode raw)) [
      | err e ↦ err e
      | ok v ↦ ok (some v)
    ]
  ]
]

-- The branches of the select in `Call`, with the client as it is then. The cancel notification is
-- written to the server and changes nothing here.
unfoldable pub finish_call :
    (Text → Result Text) → Bool → ℕ → Wake → Client → Result (Option Text) × Client
unfolding forget_call
finish_call decode wanted id (expired e) c = (err (wrap (txt "lsp") e), forget_call id c)
finish_call decode wanted id ended c =
    (err (wrap (txt "lsp") (exit_reason c.exit_err)), forget_call id c)
finish_call decode wanted id (replied r) c = (received decode wanted r, c)

-- How a call begins: it is refused, or waits on its channel. `encode` and `write` are the results
-- of encoding and writing the request.
pub data Begun : Type 0 where
  failed : Error → Begun
  waiting : ℕ → Channel → Begun

abbrev written : ℕ → Channel → Result (Unit {0}) → Client → Begun × Client
written id ch (err e) c = (failed e, forget_call id c)
written id ch (ok _) c = (waiting id ch, c)

abbrev encoded : ℕ → Channel → Result (Unit {0}) → Result (Unit {0}) → Client → Begun × Client
encoded id ch (err e) write c = (failed (wrap (txt "lsp: encode request") e), forget_call id c)
encoded id ch (ok _) write c = written id ch write c

-- The part of `Call` before the select
unfoldable pub begin_call : Result (Unit {0}) → Result (Unit {0}) → Client → Begun × Client
unfolding track_call forget_call
begin_call encode write c =
    if not (alive c)
    then (failed (wrap (txt "call") (exit_reason c.exit_err)), c)
    else let t = track_call c in encoded t.0.0 t.0.1 encode write t.1

-- `Notify`
unfoldable pub notify : Result (Unit {0}) → Result (Unit {0}) → Client → Result (Unit {0})
notify encode write c =
    if not (alive c)
    then err (wrap (txt "notify") (exit_reason c.exit_err))
    else wrapped (txt "lsp: encode request") encode >>= λ _. write

abbrev expiry : Option Error → Result (Unit {0})
expiry none = ok tt
expiry (some e) = err e

abbrev published : Text → Option Error → Result (Unit {0}) → Client → Result (Unit {0}) × Client
published path context (err e) c = (err e, c)
published path context (ok _) c = (expiry context, record c { opened = path ∷ c.opened })

abbrev opening :
    Text
    → (Text → Result (Unit {0}))
    → Option Error
    → Result Text
    → Client
    → Result (Unit {0}) × Client
opening path send context (err e) c = (err e, c)
opening path send context (ok text) c = published path context (send text) c

-- `EnsureOpen`: `send` is what `Notify` makes of the text, `context` is `ctx.Err()` behind it.
unfoldable pub ensure_open :
    FileSystem
    → (Text → Result (Unit {0}))
    → Option Error
    → Text
    → Client
    → Result (Unit {0}) × Client
ensure_open fs send context path c =
    if contains c.opened path
    then (ok tt, c)
    else opening path send context (wrapped (txt "lsp: read") (fs.read_file path)) c
