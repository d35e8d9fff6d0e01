-- ===== src/Lsp/Stdio/Laws.antt =====
-- internal/lsp/stdio.go: what one writer writes is read back.
use dotfs_mcp_server.Base.{
  ℕ, ◌≡◌, ◌≤◌, refl, ap, ◌∙◌, true, false, Option, none, List, [], ◌∷◌, ◌++◌, append_assoc, Text,
  length, length-append, leb, decimal, pos, ltz, ok, arith, take-length, drop-length, All,
}
use dotfs_mcp_server.Config.Numbers.{parse_int64-decimal, decimal-filled}
use dotfs_mcp_server.Lsp.Client.{Client}
use dotfs_mcp_server.Lsp.Stdio.{
  max_message_bytes, header, frame, HeaderReader, read_full, read, Inbound, read_loop,
  handle_payload,
}

-- The reader of headers understands the one header that `write` puts in front of a payload.
abbrev pub ReadsHeaders : HeaderReader → Type 0
ReadsHeaders rd = (n : ℕ) (rest : Text) → rd (header n ++ rest) ≡ ok (decimal n, rest)

-- What one writer puts on the pipe
unfoldable pub frames : List Text → Text
unfolding frame
frames [] = []
frames (p ∷ ps) = frame p ++ frames ps

-- A frame that is small enough to be read
abbrev pub Fits : Text → Type 0
Fits p = length p ≤ max_message_bytes

module _ (rd : HeaderReader) (reads : ReadsHeaders rd) where
  ltz-max : (n : ℕ) → n ≤ max_message_bytes → ltz (pos max_message_bytes) (pos n) ≡ false
  unfolding ltz
  ltz-max n h = ground (arith, h)

  -- Behind a header, that many bytes are read.
  pub read-header :
      (n : ℕ) (stream : Text)
      → n ≤ max_message_bytes
      → read rd (header n ++ stream) ≡ read_full n stream
  unfolding read
  read-header n stream small = rw (reads n stream) (
      rw (decimal-filled n)
        (rw (parse_int64-decimal n (omega (arith, small))) (rw (ltz-max n small) refl)))

  read_full-length : (p rest : Text) → read_full (length p) (p ++ rest) ≡ ok (p, rest)
  read_full-length p rest =
      let fits : leb (length p) (length (p ++ rest)) ≡ true =
        rw (length-append p rest) (ground arith) in
      rw fits (rw (take-length p rest, drop-length p rest) refl)

  read-frame : (p rest : Text) → Fits p → read rd (frame p ++ rest) ≡ ok (p, rest)
  unfolding frame
  read-frame p rest small =
      ap (read rd) (append_assoc (header (length p)) p rest)
      ∙ read-header (length p) (p ++ rest) small
      ∙ read_full-length p rest

  frames-cons :
      (p : Text) (ps : List Text) (rest : Text)
      → frames (p ∷ ps) ++ rest ≡ frame p ++ (frames ps ++ rest)
  unfolding frames
  frames-cons p ps rest = append_assoc (frame p) (frames ps) rest

  frames-step :
      (p : Text) (ps : List Text) (rest : Text)
      → Fits p
      → read rd (frames (p ∷ ps) ++ rest) ≡ ok (p, frames ps ++ rest)
  frames-step p ps rest small =
      ap (λ (t : Text). read rd t) (frames-cons p ps rest) ∙ read-frame p (frames ps ++ rest) small

  module _ (decode : Text → Option Inbound) (items : Text → Option ℕ) where
    -- The loop reads back, in order, every payload of 64 MiB at most that one writer has put on the
    -- pipe, leaves what follows on it, and does not stop before.
    pub read_loop-frames :
        (ps : List Text) (rest : Text) (c : Client)
        → All Fits ps
        → ((read_loop rd decode items (length ps) (frames ps ++ rest) c).payloads ≡ ps)
          × ((read_loop rd decode items (length ps) (frames ps ++ rest) c).rest ≡ rest)
          × ((read_loop rd decode items (length ps) (frames ps ++ rest) c).stop ≡ none)
    unfolding read_loop
    read_loop-frames [] rest c h = unfold frames in (refl, refl, refl)
    read_loop-frames (p ∷ ps) rest c h =
        rw (frames-step p ps rest h.0, read_loop)
          (let ih = read_loop-frames ps rest (handle_payload decode items p c).1 h.1 in
            (ap (λ (qs : List Text). p ∷ qs) ih.0, ih.1, ih.2))
