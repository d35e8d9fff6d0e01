-- ===== src/Lsp/Stdio.antt =====
-- internal/lsp/stdio.go: the frames of messages, and what is done with one that comes in.
pub mod Laws
pub mod Writers
use dotfs_mcp_server.Base.{
  ℕ, zero, suc, ◌≤◌, Bool, true, false, not, ◌&&◌, ◌||◌, Option, none, some, List, [], ◌∷◌, ◌++◌,
  Text, txt, ◌==◌, bytes_eq, is_empty, length, take, drop, leb, decimal, ℤ, pos, negsuc, ltz,
  Result, ok, err, Error, message, wrap, wrapped, ◌>>=◌, ◌>>◌, reject_if, if◌then◌else◌,
}
use dotfs_mcp_server.Config.Values.{parse_int64}
use dotfs_mcp_server.Lsp.Client.{Client, Response, dispatch}

-- `MaxMessageBytes`, 64 MiB
abbrev pub max_message_bytes : ℕ
max_message_bytes = 67108864

-- The header that `write` puts in front of a payload of some length
unfoldable pub header : ℕ → Text
header n = txt "Content-Length: " ++ decimal n ++ b'\r' ∷ b'\n' ∷ b'\r' ∷ b'\n' ∷ []

-- What one call of `write` puts on the pipe
unfoldable pub frame : Text → Text
unfolding header
frame payload = header (length payload) ++ payload

-- `ReadMIMEHeader` of net/textproto and `Get("Content-Length")`: the value of that header, empty if
-- there is none, and the bytes behind the header.
abbrev pub HeaderReader : Type 0
HeaderReader = Text → Result (Text × Text)

abbrev pub sized : Option ℤ → Result ℤ
sized none = err (wrap (txt "malformed Content-Length") (message (txt "invalid syntax")))
sized (some n) = ok n

-- `io.ReadFull`
abbrev pub read_full : ℕ → Text → Result (Text × Text)
read_full n stream =
    if leb n (length stream)
    then ok (take n stream, drop n stream)
    else err (wrap (txt "short read") (message (txt "unexpected EOF")))

-- A size that was found to be within bounds
abbrev pub payload_of : ℤ → Text → Result (Text × Text)
payload_of (pos n) stream =
    if ltz (pos max_message_bytes) (pos n)
    then err (message (txt "frame data exceeding max size"))
    else read_full n stream
payload_of (negsuc n) stream = err (message (txt "frame data exceeding max size"))

-- `read`: the payload of the next frame, and the bytes behind it
unfoldable pub read : HeaderReader → Text → Result (Text × Text)
unfolding parse_int64 ltz
read rd stream = do
  head ← rd stream
  reject_if (is_empty head.0) (message (txt "frame is missing the Content-Length header"))
  size ← sized (parse_int64 head.0)
  payload_of size head.1

-- `inboundMessage`; a field that is absent is empty, and `id` is what decoding the id gives.
pub record Inbound : Type 0 where
  pub raw_id : Text
  pub id : Option ℤ
  pub method : Text
  pub params : Text
  pub reply : Response

-- The result in the answer to a request of the server: null, or that many empty settings
pub data ServerResult : Type 0 where
  null : ServerResult
  settings : ℕ → ServerResult

-- `answerRequest`; `items` decodes the parameters of a configuration request.
unfoldable pub answer_request : (Text → Option ℕ) → Inbound → ServerResult
answer_request items msg =
    if msg.method == txt "workspace/configuration"
    then (elim (items msg.params) [ none ↦ settings 0 | some n ↦ settings n ])
    else null

-- What `readLoop` does with a message: it answers a request, logs a notification, or hands a reply
-- to the client.
pub data Handled : Type 0 where
  answered : Text → ServerResult → Handled
  logged : Handled
  dispatched : Handled

unfoldable pub handle : (Text → Option ℕ) → Inbound → Client → Handled × Client
unfolding answer_request dispatch
handle items msg c =
    if not (is_empty msg.method) && not (is_empty msg.raw_id)
    then (answered msg.raw_id (answer_request items msg), c)
    else if not (is_empty msg.method)
    then (logged, c)
    else (dispatched, dispatch msg.id msg.reply c)

-- A payload that is no message is passed over.
abbrev pub handle_payload :
    (Text → Option Inbound) → (Text → Option ℕ) → Text → Client → List Handled × Client
handle_payload decode items payload c = elim (decode payload) [
  | none ↦ ([], c)
  | some msg ↦ let h = handle items msg c in (h.0 ∷ [], h.1)
]

-- What the loop has done when it ends, or when the frames to read have been read
pub record Loop : Type 0 where
  pub payloads : List Text
  pub handled : List Handled
  pub client : Client
  pub rest : Text
  pub stop : Option Error

-- `readLoop`, for at most so many frames. The loop itself ends with an error only.
unfoldable pub read_loop :
    HeaderReader → (Text → Option Inbound) → (Text → Option ℕ) → ℕ → Text → Client → Loop
unfolding read handle
read_loop rd decode items zero stream c = record {
  payloads = [];
  handled = [];
  client = c;
  rest = stream;
  stop = none;
}
read_loop rd decode items (suc n) stream c = elim (read rd stream) [
  | err e ↦ record {
    payloads = [];
    handled = [];
    client = c;
    rest = stream;
    stop = some (wrap (txt "lsp") e);
  }
  | ok p ↦
      let done = handle_payload decode items p.0 c in
      let more = read_loop rd decode items n p.1 done.1 in
      record more { payloads = p.0 ∷ more.payloads; handled = done.0 ++ more.handled }
]
