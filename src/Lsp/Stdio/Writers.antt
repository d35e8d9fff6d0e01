-- ===== src/Lsp/Stdio/Writers.antt =====
-- internal/lsp/stdio.go: writers that call `write` at the same time. The header is written before the
-- lock is taken, and the payload under it.
use dotfs_mcp_server.Base.{
  ℕ, suc, ◌≡◌, ◌≢◌, ◌≤◌, ◌<◌, refl, sym, ap, ◌∙◌, true, Option, none, some, [], ◌∷◌, ◌++◌,
  append_assoc, Text, ◌==◌, nat_eq, length, length-append, take, drop, take-length, drop-length,
  leb, ok, arith, if◌then◌else◌,
}
use dotfs_mcp_server.Lsp.Stdio.{max_message_bytes, header, frame, HeaderReader, read}
use dotfs_mcp_server.Lsp.Stdio.Laws.{ReadsHeaders, read-header}

-- The pipe, and for each writer the payload that its header has announced
pub record Wire : Type 0 where
  pub stream : Text
  pub announced : ℕ → Option Text

abbrev pub idle : Wire
idle = record { stream = []; announced = λ i. none }

abbrev pub update : (ℕ → Option Text) → ℕ → Option Text → ℕ → Option Text
update f i o j = if i == j then o else f j

-- The two writes of a call of `write`
unfoldable pub write_header : ℕ → Text → Wire → Wire
write_header i p w = record {
  stream = w.stream ++ header (length p);
  announced = update w.announced i (some p);
}

unfoldable pub write_body : ℕ → Text → Wire → Wire
write_body i p w = record { stream = w.stream ++ p; announced = update w.announced i none }

pub data Step (w : Wire) : Wire → Type 0 where
  announce : (i : ℕ) (p : Text) → w.announced i ≡ none → Step w (write_header i p w)
  fill : (i : ℕ) (p : Text) → w.announced i ≡ some p → Step w (write_body i p w)

pub data Reachable : Wire → Type 0 where
  here : Reachable idle
  next : {v w : Wire} → Reachable v → Step v w → Reachable w

-- Two headers, and then the two payloads
unfoldable pub mixed : Text → Text → Wire
unfolding write_header write_body
mixed p q = write_body 1 q (write_body 0 p (write_header 1 q (write_header 0 p idle)))

mixed-Reachable : (p q : Text) → Reachable (mixed p q)
unfolding mixed nat_eq
mixed-Reachable p q =
    next (next (next (next here (announce 0 p refl)) (announce 1 q refl)) (fill 0 p refl))
      (fill 1 q refl)

mixed-done : (p q : Text) (i : ℕ) → (mixed p q).announced i ≡ none
unfolding mixed
mixed-done p q i = ground arith

mixed-stream :
    (p q : Text) → (mixed p q).stream ≡ header (length p) ++ (header (length q) ++ (p ++ q))
unfolding mixed
mixed-stream p q = simp append_assoc

module _ (rd : HeaderReader) (reads : ReadsHeaders rd) (p q : Text) where
  -- What the reader takes for the first payload
  taken : Text
  taken = take (length p) (header (length q) ++ (p ++ q))

  left : Text
  left = drop (length p) (header (length q) ++ (p ++ q))

  mixed-read : length p ≤ max_message_bytes → read rd (mixed p q).stream ≡ ok (taken, left)
  unfolding taken left
  mixed-read small =
      let fits : leb (length p) (length (header (length q) ++ (p ++ q))) ≡ true =
        rw (length-append (header (length q)) (p ++ q), length-append p q) (ground arith) in
      ap (λ (t : Text). read rd t) (mixed-stream p q)
      ∙ read-header rd reads (length p) (header (length q) ++ (p ++ q)) small
      ∙ rw fits refl

taken-head : (n k : ℕ) (r : Text) → take 1 (take (suc n) (header k ++ r)) ≡ b'C' ∷ []
unfolding header
taken-head n k r = refl

-- The same two calls of `write`, the one behind the other
unfoldable pub in_turn : Text → Text → Wire
unfolding write_header write_body
in_turn p q = write_body 1 q (write_header 1 q (write_body 0 p (write_header 0 p idle)))

in_turn-Reachable : (p q : Text) → Reachable (in_turn p q)
unfolding in_turn nat_eq
in_turn-Reachable p q =
    next (next (next (next here (announce 0 p refl)) (fill 0 p refl)) (announce 1 q refl))
      (fill 1 q refl)

in_turn-stream :
    (p q : Text) → (in_turn p q).stream ≡ header (length p) ++ (p ++ (header (length q) ++ q))
unfolding in_turn
in_turn-stream p q = simp append_assoc

in_turn-read :
    (rd : HeaderReader) (p q : Text)
    → ReadsHeaders rd
    → length p ≤ max_message_bytes
    → read rd (in_turn p q).stream ≡ ok (p, frame q)
unfolding frame
in_turn-read rd p q reads small =
    let rest : Text = header (length q) ++ q in
    let fits : leb (length p) (length (p ++ rest)) ≡ true =
      rw (length-append p rest) (ground arith) in
    ap (λ (t : Text). read rd t) (in_turn-stream p q)
    ∙ read-header rd reads (length p) (p ++ rest) small
    ∙ rw (fits, take-length p rest, drop-length p rest) refl

-- A reader whose first payload is neither of the two that were written
abbrev pub IsSpoiled : HeaderReader → Text → Text → Wire → Type 0
IsSpoiled rd p q w = (got rest : Text) × (read rd w.stream ≡ ok (got, rest)) × (got ≢ p) × (got ≢ q)

-- Two writers, with payloads that do not begin with a C, as JSON documents, the first of them neither
-- empty nor over the limit: that both write their headers before their payloads is a run of the two
-- calls of `write` to their ends, and spoils the stream, since the reader's next payload is neither
-- of theirs; one call behind the other is a run too, and lets the reader take the first payload, with
-- the frame of the second one behind it.
pub write-overlap :
    (rd : HeaderReader) (p q : Text)
    → ReadsHeaders rd
    → length p ≤ max_message_bytes
    → 0 < length p
    → take 1 p ≢ b'C' ∷ []
    → take 1 q ≢ b'C' ∷ []
    → (Reachable (mixed p q)
        × ((i : ℕ) → (mixed p q).announced i ≡ none)
        × IsSpoiled rd p q (mixed p q))
      × (Reachable (in_turn p q) × (read rd (in_turn p q).stream ≡ ok (p, frame q)))
write-overlap rd [] q reads small some_bytes json json' = elim some_bytes [ ]
write-overlap rd (c ∷ p) q reads small some_bytes json json' = (
  (
    mixed-Reachable (c ∷ p) q,
    mixed-done (c ∷ p) q,
    (
      taken rd reads (c ∷ p) q,
      left rd reads (c ∷ p) q,
      mixed-read rd reads (c ∷ p) q small,
      λ e. json (head (c ∷ p) e),
      λ e. json' (head q e),
    ),
  ),
  (in_turn-Reachable (c ∷ p) q, in_turn-read rd (c ∷ p) q reads small),
)
  where
    head : (t : Text) → taken rd reads (c ∷ p) q ≡ t → take 1 t ≡ b'C' ∷ []
    head t e =
        ap (λ (u : Text). take 1 u) (sym e)
        ∙ unfold taken in taken-head (length p) (length q) ((c ∷ p) ++ q)
