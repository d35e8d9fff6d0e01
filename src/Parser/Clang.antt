-- ===== src/Parser/Clang.antt =====
-- internal/ast/parser/clang.go: the C engine, on trees of the Tree-sitter library, whose nodes are a
-- parameter.
pub mod Comments
pub mod Declarations
pub mod Walk
pub mod Laws
use mathlib.Core.WellFounded.{Acc}
use dotfs_mcp_server.Base.{
  ℕ, zero, suc, ◌+◌, Bool, true, false, not, ◌&&◌, ◌||◌, Option, none, some, List, [], ◌∷◌, map,
  Text, txt, ◌==◌, nat_eq, bytes_eq, is_empty, length, ltb, leb, get_elem?, contains, occurs, ℤ,
  pos, Result, if◌then◌else◌,
}
use dotfs_mcp_server.Parser.Golang.{Span, slice}

-- `sitter.Node`: what the engine asks of a node. A tree is finite, downwards and to the left.
pub record Tree : Type 1 where
  pub Node : Type 0
  pub IsChild : Node → Node → Type 0
  pub IsBefore : Node → Node → Type 0
  pub kind : Node → Text
  pub start_byte : Node → ℕ
  pub end_byte : Node → ℕ
  pub start_row : Node → ℕ
  pub content : Node → Text → Text
  pub same : Node → Node → Bool
  pub field : (n : Node) → Text → Option ((c : Node) × IsChild c n)
  pub named_children : (n : Node) → List ((c : Node) × IsChild c n)
  pub parent : Node → Option Node
  pub prev_sibling : (n : Node) → Option ((b : Node) × IsBefore b n)
  pub downwards : (n : Node) → Acc IsChild n
  pub leftwards : (n : Node) → Acc IsBefore n

-- The tokens of the prefilter
abbrev pub c_tokens : List Text
c_tokens = txt "(" ∷ txt "#define" ∷ txt "struct" ∷ txt "union" ∷ txt "enum" ∷ txt "typedef" ∷ []

-- `Prefilter`
unfoldable pub c_prefilter : List Text → Text → Bool
unfolding occurs
c_prefilter [] src = false
c_prefilter (tok ∷ toks) src = occurs tok src || c_prefilter toks src

-- The bytes that `nodeSpan` trims
abbrev is_trimmed : Option ℕ → Bool
is_trimmed none = false
is_trimmed (some c) = c == b'\n' || c == b'\r' || c == b' ' || c == b'\t'

unfoldable pub trim_end : Text → ℕ → ℕ → ℕ
unfolding nat_eq
trim_end src start zero = zero
trim_end src start (suc stop) =
    let rest = trim_end src start stop in
    if ltb start (suc stop) && is_trimmed (get_elem? src stop) then rest else suc stop

-- `bytes.Count` of a line feed
unfoldable pub line_feeds : Text → ℕ
unfolding nat_eq
line_feeds [] = 0
line_feeds (c ∷ s) = let rest = line_feeds s in if c == b'\n' then suc rest else rest

-- The range behind the trimming
abbrev pub trimmed_span : Text → ℕ → ℕ → ℕ → Option Span
trimmed_span src start stop row =
    if leb stop start
    then none
    else some (record {
      start = start;
      stop = stop;
      start_line = pos (row + 1);
      stop_line = pos (
          row
          + 1
          + line_feeds (
              slice src
                (record { start = start; stop = stop; start_line = pos 0; stop_line = pos 0 })));
    })

abbrev pub byte_span : Text → ℕ → ℕ → ℕ → Option Span
byte_span src start stop row =
    if ltb (length src) stop || leb stop start
    then none
    else trimmed_span src start (trim_end src start stop) row

module _ (t : Tree) (src : Text) where
  -- `nodeSpan`; a start is never negative.
  unfoldable pub node_span : t.Node → Option Span
  unfolding trim_end line_feeds slice
  node_span n = byte_span src (t.start_byte n) (t.end_byte n) (t.start_row n)

  -- The node of a field
  abbrev pub field_of : t.Node → Text → Option t.Node
  field_of n key = elim (t.field n key) [ none ↦ none | some (c, is) ↦ some c ]

  abbrev pub children_of : t.Node → List t.Node
  children_of n = map (λ p. p.0) (t.named_children n)

  -- Is the node the one that the option holds?
  abbrev pub is_same : t.Node → Option t.Node → Bool
  is_same n none = false
  is_same n (some m) = t.same n m

  -- The first of the names that is not empty
  unfoldable pub first_name : List Text → Text
  first_name [] = []
  first_name (name ∷ names) = let rest = first_name names in if is_empty name then rest else name

  abbrev is_identifier : Text → Bool
  is_identifier kind =
      kind == txt "identifier" || kind == txt "field_identifier" || kind == txt "type_identifier"

  abbrev is_ignored : Text → Bool
  is_ignored kind =
      kind == txt "parameter_list"
      || kind == txt "compound_statement"
      || kind == txt "attribute_specifier"

  -- `declaratorName`
  unfoldable pub declarator_name : (n : t.Node) → Acc t.IsChild n → Text
  unfolding first_name bytes_eq
  declarator_name n (Acc.intro _ smaller) =
      let by_field : Text = elim (t.field n (txt "declarator")) [
        | none ↦ []
        | some (c, is) ↦ declarator_name c (smaller c is)
      ] in
      let by_child = first_name (
        map
          (λ (p : (c : t.Node) × t.IsChild c n).
            let name = declarator_name p.0 (smaller p.0 p.1) in
            if is_ignored (t.kind p.0) then [] else name)
          (t.named_children n)) in
      if is_identifier (t.kind n)
      then t.content n src
      else if is_empty by_field
      then by_child
      else by_field

  unfoldable pub name_of : t.Node → Text
  unfolding declarator_name
  name_of n = declarator_name n (t.downwards n)
