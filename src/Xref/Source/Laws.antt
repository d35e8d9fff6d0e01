-- ===== src/Xref/Source/Laws.antt =====
-- internal/xref/compact.go: laws of the cache of source files and of identifiers.
use dotfs_mcp_server.Base.{
  ℕ, zero, suc, ◌≡◌, refl, ◌+◌, ◌-◌, ◌≤◌, true, List, [], ◌∷◌, ◌++◌, Text, nat_eq, bytes_eq, length,
  take, drop, some, Option-cases, lookup, lookup-insert, All, ℤ, pos, negsuc, if◌then◌else◌, arith,
  inl, inr, length-append, length-take-le, leb, txt, Bool-cases, ap,
}
use dotfs_mcp_server.Utils.Files.{FileSystem}
use dotfs_mcp_server.Xref.Source.{
  Cache, lines, read_lines, is_ident_rune, ident_at, caret, start_of, ident_run, span_at, word_at,
  truncate, max_snippet_chars,
}

-- The cache holds what the files hold.
abbrev pub IsCoherent : FileSystem → Cache → Type 0
IsCoherent fs cache =
    (path : Text) (kept : List Text) → lookup path cache ≡ some kept → kept ≡ read_lines fs path

-- The cache is transparent: it answers the file's lines, and still holds what the files hold.
pub lines-IsCoherent :
    (fs : FileSystem) (cache : Cache) (path : Text)
    → IsCoherent fs cache
    → ((lines fs cache path).0 ≡ read_lines fs path) × IsCoherent fs (lines fs cache path).1
unfolding lines
lines-IsCoherent fs cache path coherent = elim (Option-cases (lookup path cache)) [
  | inr (kept, is) ↦ rw (is, lines) (coherent path kept is, coherent)
  | inl new ↦
      rw (new, lines)
        (
          refl,
          λ q kept is.
              let found = rw (lookup-insert q path (read_lines fs path) cache) at is in
              elim (bytes_eq.dec q path) [
                | yes e ↦ ground (arith, ap (read_lines fs) e)
                | no other ↦ coherent q kept (ground arith)
              ],
        )
]

capped :
    (n : ℕ) (s more : Text)
    → length (if leb (length s) n then s else take n s ++ more) ≤ n + length more
capped n s more = ground (arith, length-append (take n s) more, length-take-le n s)

-- A snippet is at most 244 bytes long, the mark of the cut included.
pub length-truncate : (s : Text) → length (truncate s) ≤ 244
unfolding truncate
length-truncate s = capped max_snippet_chars s (txt " ...")

ident_at-drop :
    (text : List ℕ) (i : ℕ)
    → ident_at text i ≡ true
    → (r : ℕ) × (is_ident_rune r ≡ true) × (drop i text ≡ r ∷ drop (suc i) text)
unfolding ident_at
ident_at-drop [] i h = cc
ident_at-drop (c ∷ text) zero h = (c, h, refl)
ident_at-drop (c ∷ text) (suc i) h = ident_at-drop text i h

-- The runes at the front that are an identifier's.
All-ident_run : (rs : List ℕ) → All (λ r. is_ident_rune r ≡ true) (take (ident_run rs) rs)
unfolding ident_run
All-ident_run [] = tt
All-ident_run (r ∷ rs) = elim (Bool-cases (is_ident_rune r)) [
  | inl is ↦ rw is (is, All-ident_run rs)
  | inr is_not ↦ rw is_not tt
]

caret-ident_at : (text : List ℕ) (i j : ℕ) → caret text i ≡ some j → ident_at text j ≡ true
unfolding caret
caret-ident_at text zero j h = ground arith
caret-ident_at text (suc i) j h = ground arith

-- Every rune from the start to the index is an identifier's.
All-start :
    (text : List ℕ) (i more n : ℕ)
    → n + start_of text i ≡ i + more
    → All (λ r. is_ident_rune r ≡ true) (take more (drop i text))
    → All (λ r. is_ident_rune r ≡ true) (take n (drop (start_of text i) text))
unfolding start_of
All-start text zero more n e h = let same : n ≡ more = omega arith in rw same h
All-start text (suc i) more n e h = elim (Bool-cases (ident_at text i)) [
  | inr is_not ↦ let same : n ≡ more = omega (arith, rw is_not at e) in rw (is_not, same) h
  | inl is ↦
      let (r, is_rune, split) = ident_at-drop text i is in
      rw is (All-start text i (suc more) n (omega (arith, rw is at e)) (rw split (is_rune, h)))
]

start_of-le : (text : List ℕ) (i : ℕ) → start_of text i ≤ i
unfolding start_of
start_of-le text zero = omega arith
start_of-le text (suc i) = ground (arith, start_of-le text i)

All-span_at :
    (text : List ℕ) (i : ℕ)
    → ident_at text i ≡ true
    → All (λ r. is_ident_rune r ≡ true) (span_at text i)
unfolding span_at
All-span_at text i is =
    let (r, is_rune, split) = ident_at-drop text i is in
    let run = ident_run (drop (suc i) text) in
    All-start text i (suc run) (suc (i + run) - start_of text i) (omega (arith, start_of-le text i))
      (rw split (is_rune, All-ident_run (drop (suc i) text)))

-- What is read at a position is made of identifier runes only.
pub All-word_at :
    (text : List ℕ) (character : ℤ) → All (λ r. is_ident_rune r ≡ true) (word_at text character)
unfolding word_at
All-word_at text (pos zero) = tt
All-word_at text (negsuc i) = tt
All-word_at text (pos (suc i)) = elim (Option-cases (caret text i)) [
  | inl outside ↦ rw (outside, word_at) tt
  | inr (j, is) ↦ rw (is, word_at) (All-span_at text j (caret-ident_at text i j is))
]
