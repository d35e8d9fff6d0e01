-- ===== src/Tests/Headers.antt =====
-- A reader of the header that internal/lsp/stdio.go writes.
use dotfs_mcp_server.Base.{
  ℕ, ◌≡◌, refl, false, some, [], ◌∷◌, ◌++◌, append_assoc, Text, ◌==◌, nat_eq, drop, decimal, ok, ap,
  ◌∙◌, arith, ◌-◌, ◌+◌, ◌*◌, if◌then◌else◌,
}
use dotfs_mcp_server.Config.Values.{parse_digits}
use dotfs_mcp_server.Config.Numbers.{parse_digits-decimal}
use dotfs_mcp_server.Lsp.Stdio.{header, HeaderReader}
use dotfs_mcp_server.Lsp.Stdio.Laws.{ReadsHeaders}

-- Up to the end of the line, and behind the empty line that follows
unfoldable pub value_and_rest : Text → Text × Text
unfolding nat_eq
value_and_rest [] = ([], [])
value_and_rest (c ∷ s) =
    let more = value_and_rest s in if c == b'\r' then ([], drop 3 s) else (c ∷ more.0, more.1)

abbrev pub line_reader : HeaderReader
line_reader stream = ok (value_and_rest (drop 16 stream))

-- The first byte of a row of digits is a digit, and the rest is a row again.
digits-head :
    (acc n c : ℕ) (ds : Text)
    → parse_digits acc (c ∷ ds) ≡ some n
    → ((c == b'\r') ≡ false) × (parse_digits (acc * 10 + (c - b'0')) ds ≡ some n)
unfolding parse_digits
digits-head acc n c ds h = (ground (arith, h), ground (arith, h))

value_and_rest-digits :
    (acc n : ℕ) (ds rest : Text)
    → parse_digits acc ds ≡ some n
    → value_and_rest (ds ++ b'\r' ∷ b'\n' ∷ b'\r' ∷ b'\n' ∷ rest) ≡ (ds, rest)
unfolding value_and_rest
value_and_rest-digits acc n [] rest h = refl
value_and_rest-digits acc n (c ∷ ds) rest h =
    let (plain, digits) = digits-head acc n c ds h in
    rw plain (rw (value_and_rest-digits (acc * 10 + (c - b'0')) n ds rest digits) refl)

pub line_reader-ReadsHeaders : ReadsHeaders line_reader
unfolding header
line_reader-ReadsHeaders n rest =
    ap (λ (t : Text). ok (value_and_rest t)) (append_assoc (decimal n) _ rest)
    ∙ ap (λ (p : Text × Text). ok p)
        (value_and_rest-digits 0 n (decimal n) rest (parse_digits-decimal n))
