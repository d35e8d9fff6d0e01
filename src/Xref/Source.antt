-- ===== src/Xref/Source.antt =====
-- internal/xref/compact.go: source files, their lines, and the identifier at a position.
pub mod Laws
use dotfs_mcp_server.Base.{
  ℕ, zero, suc, ◌≡◌, refl, ◌+◌, ◌-◌, Bool, true, false, not, ◌&&◌, ◌||◌, List, [], ◌∷◌, ◌++◌, Text,
  txt, ◌==◌, nat_eq, bytes_eq, ltb, leb, length, take, drop, get_elem?, split, trim_space, runes,
  Option, none, some, Dict, lookup, insert, Result, ok, err, ℤ, pos, negsuc, if◌then◌else◌,
}
use dotfs_mcp_server.Utils.Files.{FileSystem}

-- `maxSnippetChars`
abbrev pub max_snippet_chars : ℕ
max_snippet_chars = 240

-- `truncate`
unfoldable pub truncate : Text → Text
truncate s = if leb (length s) max_snippet_chars then s else take max_snippet_chars s ++ txt " ..."

abbrev starts_lf : Text → Bool
starts_lf [] = false
starts_lf (c ∷ s) = c == b'\n'

-- `strings.ReplaceAll(s, "\r\n", "\n")`
unfoldable pub replace_crlf : Text → Text
unfolding nat_eq
replace_crlf [] = []
replace_crlf (c ∷ s) =
    let rest = replace_crlf s in if c == b'\r' && starts_lf s then rest else c ∷ rest

unfoldable pub split_lines : Text → List Text
unfolding replace_crlf split
split_lines s = split b'\n' (replace_crlf s)

-- The lines of a file as `os.ReadFile` gives it; none of one that cannot be read.
unfoldable pub read_lines : FileSystem → Text → List Text
read_lines fs path = elim (fs.read_file path) [ ok s ↦ split_lines s | err e ↦ [] ]

-- `sourceCache`
abbrev pub Cache : Type 0
Cache = Dict Text (List Text)

-- `lines`, which loads a file at its first use
unfoldable pub lines : FileSystem → Cache → Text → List Text × Cache
lines fs cache path = elim (lookup path cache) [
  | some cached ↦ (cached, cache)
  | none ↦ (read_lines fs path, insert path (read_lines fs path) cache)
]

-- The line of a one-based number.
unfoldable pub nth_line : List Text → ℤ → Option Text
nth_line all (pos zero) = none
nth_line all (pos (suc n)) = get_elem? all n
nth_line all (negsuc n) = none

-- `line`
unfoldable pub line : FileSystem → Cache → Text → ℤ → Text × Cache
line fs cache path n = (
  elim (nth_line (lines fs cache path).0 n) [ none ↦ [] | some t ↦ truncate (trim_space t) ],
  (lines fs cache path).1,
)

-- `isIdentRune`
unfoldable pub is_ident_rune : ℕ → Bool
unfolding nat_eq
is_ident_rune r =
    r == b'_'
    || (leb b'a' r && leb r b'z')
    || (leb b'A' r && leb r b'Z')
    || (leb b'0' r && leb r b'9')

-- Is there an identifier's rune at the index?
unfoldable pub ident_at : List ℕ → ℕ → Bool
ident_at text i = elim (get_elem? text i) [ some r ↦ is_ident_rune r | none ↦ false ]

-- The index that the caret stands for; one right behind an identifier counts.
unfoldable pub caret : List ℕ → ℕ → Option ℕ
caret text zero = if ident_at text zero then some zero else none
caret text (suc i) =
    if ltb (length text) (suc i)
    then none
    else if ident_at text (suc i)
    then some (suc i)
    else if ident_at text i
    then some i
    else none

-- `for start > 0 && isIdentRune(text[start-1])`
unfoldable pub start_of : List ℕ → ℕ → ℕ
start_of text zero = zero
start_of text (suc i) = let before = start_of text i in if ident_at text i then before else suc i

-- How many of the runes at the front are an identifier's.
unfoldable pub ident_run : List ℕ → ℕ
ident_run [] = 0
ident_run (r ∷ rs) = let more = ident_run rs in if is_ident_rune r then suc more else 0

-- `text[start : end+1]`, where `end` goes up while the rune behind it is an identifier's
unfoldable pub span_at : List ℕ → ℕ → List ℕ
unfolding start_of ident_run
span_at text i =
    let start = start_of text i in
    let end = i + ident_run (drop (suc i) text) in take (suc end - start) (drop start text)

unfoldable pub word_at : List ℕ → ℤ → Text
unfolding caret span_at
word_at text (pos zero) = []
word_at text (pos (suc i)) = elim (caret text i) [ none ↦ [] | some j ↦ span_at text j ]
word_at text (negsuc i) = []

-- `identifierAt`. The runes of an identifier are ASCII, so they are its bytes.
unfoldable pub identifier_at : FileSystem → Cache → Text → ℤ → ℤ → Text × Cache
unfolding word_at
identifier_at fs cache path n character = (
  elim (nth_line (lines fs cache path).0 n) [ none ↦ [] | some t ↦ word_at (runes t) character ],
  (lines fs cache path).1,
)

identifier_test : word_at (txt "x = foo_1(y)") (pos 10) ≡ txt "foo_1"
unfolding word_at caret ident_at is_ident_rune span_at start_of ident_run
identifier_test = refl

split_lines_test : split_lines (b'a' ∷ b'\r' ∷ b'\n' ∷ b'b' ∷ []) ≡ txt "a" ∷ txt "b" ∷ []
unfolding split_lines
split_lines_test = refl
