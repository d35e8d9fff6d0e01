-- ===== src/Parser/Clang/Laws.antt =====
-- internal/ast/parser/clang.go: what the C engine extracts.
pub mod Nodes
pub mod Walks
use mathlib.Core.WellFounded.{Acc}
use dotfs_mcp_server.Base.{
  ℕ, zero, suc, ◌+◌, ◌≡◌, ◌≤◌, ◌<◌, refl, ◌⊎◌, inl, inr, Bool, true, false, ◌&&◌, ◌||◌, Option,
  none, some, List, [], ◌∷◌, ◌==◌, nat_eq, Text, length, ltb, leb, Any, All, ap, txt, bytes_eq,
  get_elem?, ℤ, pos, Bool-cases, arith, if◌then◌else◌,
}
use dotfs_mcp_server.Ast.{blank, SymbolType, symbol_constant, symbol_type_valid, language_c}
use dotfs_mcp_server.Parser.{Symbol}
use dotfs_mcp_server.Parser.Golang.{Span, slice}
use dotfs_mcp_server.Parser.Clang.{
  Tree, is_trimmed, trim_end, line_feeds, trimmed_span, byte_span, node_span, field_of, children_of,
}
use dotfs_mcp_server.Parser.Clang.Comments.{spanned_symbol, new_c_symbol}
use dotfs_mcp_server.Parser.Clang.Declarations.{signed, as_list}

-- A range of bytes inside the source that does not end in white space, with the lines that it takes
abbrev pub IsRange : Text → Span → Type 0
IsRange src r =
    (r.start < r.stop)
    × (r.stop ≤ length src)
    × ((last : ℕ) × (r.stop ≡ suc last) × (is_trimmed (get_elem? src last) ≡ false))
    × ((line more : ℕ) × (r.start_line ≡ pos (suc line)) × (r.stop_line ≡ pos (suc line + more)))

-- The bytes of a node, or nothing if it has no range
abbrev pub IsBlock : (t : Tree) → Text → t.Node → Text → Type 0
IsBlock t src whole code =
    ((block : Span) × (node_span t src whole ≡ some block) × (code ≡ slice src block))
    ⊎ ((node_span t src whole ≡ none) × (code ≡ []))

-- An enumerator with the range `r` in the body of an enum
pub record IsEnumerator (t : Tree) (src : Text) (r : Span) (whole n : t.Node) : Type 0 where
  pub enum : t.kind whole ≡ txt "enum_specifier"
  pub enumerator : t.kind n ≡ txt "enumerator"
  pub range : node_span t src n ≡ some r
  pub within :
      (body : t.Node) × (field_of t src whole (txt "body") ≡ some body)
      × Any (λ x. x ≡ n) (children_of t src body)

-- The code of a symbol: the bytes of its range; but a constant, which is an enumerator, has the bytes
-- of the whole enum.
abbrev pub IsCode : Tree → Text → Span → Text → Text → Type 0
IsCode t src r kind code =
    (((kind == symbol_constant) ≡ false) × (code ≡ slice src r))
    ⊎ ((kind ≡ symbol_constant)
        × (whole : t.Node) × (n : t.Node) × IsEnumerator t src r whole n
        × IsBlock t src whole code)

-- A symbol of a C file
pub record IsExtracted (t : Tree) (src : Text) (sym : Symbol) : Type 0 where
  pub range :
      (r : Span) × IsRange src r
      × (sym.start_byte ≡ pos r.start)
      × (sym.end_byte ≡ pos r.stop)
      × (sym.start_line ≡ r.start_line)
      × (sym.end_line ≡ r.stop_line)
      × IsCode t src r sym.symbol_type sym.source_code
  pub c : sym.language ≡ language_c
  pub kind : symbol_type_valid sym.symbol_type ≡ true

abbrev pub SpanRange : Text → Option Span → Type 0
SpanRange src none = Unit
SpanRange src (some r) = IsRange src r

abbrev pub Kept : Tree → Text → Option Symbol → Type 0
Kept t src none = Unit
Kept t src (some sym) = IsExtracted t src sym

trim_end-le : (src : Text) (start stop : ℕ) → trim_end src start stop ≤ stop
unfolding trim_end
trim_end-le src start zero = omega arith
trim_end-le src start (suc stop) =
    elim (Bool-cases (ltb start (suc stop) && is_trimmed (get_elem? src stop))) [
      | inl e ↦ rw e (omega (arith, trim_end-le src start stop))
      | inr e ↦ rw e (omega arith)
    ]

not_trimmed :
    (start stop : ℕ) (b : Bool) → start < suc stop → (ltb start (suc stop) && b) ≡ false → b ≡ false
not_trimmed start stop b h e = ground (arith, h, e)

trim_end-Ends :
    (src : Text) (start stop : ℕ)
    → start < trim_end src start stop
    → (last : ℕ) × (trim_end src start stop ≡ suc last) × (is_trimmed (get_elem? src last) ≡ false)
unfolding trim_end
trim_end-Ends src start zero h = absurd (omega (arith, h))
trim_end-Ends src start (suc stop) h =
    elim (Bool-cases (ltb start (suc stop) && is_trimmed (get_elem? src stop))) [
      | inl e ↦ rw e (trim_end-Ends src start stop (rw e at h))
      | inr e ↦ rw e (stop, refl, not_trimmed start stop _ (rw e at h) e)
    ]

trimmed_span-IsRange :
    (src : Text) (start stop row : ℕ)
    → stop ≤ length src
    → (start < stop → (last : ℕ) × (stop ≡ suc last) × (is_trimmed (get_elem? src last) ≡ false))
    → SpanRange src (trimmed_span src start stop row)
trimmed_span-IsRange src start stop row inside ends = elim (Bool-cases (leb stop start)) [
  | inl e ↦ rw e tt
  | inr e ↦
      let less : start < stop = ground (arith, e) in
      let feeds : ℕ = line_feeds (
        slice src (record { start = start; stop = stop; start_line = pos 0; stop_line = pos 0 })) in
      rw e (less, inside, ends less, (row, feeds, ap pos (omega arith), ap pos (omega arith)))
]

byte_span-IsRange : (src : Text) (start stop row : ℕ) → SpanRange src (byte_span src start stop row)
byte_span-IsRange src start stop row = elim (Bool-cases (ltb (length src) stop || leb stop start)) [
  | inl e ↦ rw e tt
  | inr e ↦ rw e (
      trimmed_span-IsRange src start (trim_end src start stop) row
        (omega (arith, trim_end-le src start stop, not_over src stop start e))
        (trim_end-Ends src start stop))
]
  where
    not_over :
        (src : Text) (stop start : ℕ)
        → (ltb (length src) stop || leb stop start) ≡ false
        → stop ≤ length src
    not_over src stop start e = ground (arith, e)

pub node_span-IsRange : (t : Tree) (src : Text) (n : t.Node) → SpanRange src (node_span t src n)
unfolding node_span
node_span-IsRange t src n = byte_span-IsRange src (t.start_byte n) (t.end_byte n) (t.start_row n)

spanned_symbol-IsExtracted :
    (t : Tree) (src : Text) (n : t.Node) (name : Text) (kind : SymbolType) (o : Option Span)
    → symbol_type_valid kind ≡ true
    → (kind == symbol_constant) ≡ false
    → SpanRange src o
    → Kept t src (spanned_symbol t src n name kind o)
spanned_symbol-IsExtracted t src n name kind none valid other h = tt
spanned_symbol-IsExtracted t src n name kind (some r) valid other h = record {
  range = (r, h, refl, refl, refl, refl, inl (other, refl));
  c = refl;
  kind = valid;
}

pub new_c_symbol-IsExtracted :
    (t : Tree) (src : Text) (n : t.Node) (name : Text) (kind : SymbolType)
    → symbol_type_valid kind ≡ true
    → (kind == symbol_constant) ≡ false
    → Kept t src (new_c_symbol t src n name kind)
unfolding new_c_symbol
new_c_symbol-IsExtracted t src n name kind valid other = elim (Bool-cases (blank name)) [
  | inl e ↦ rw e tt
  | inr e ↦ rw e (
      spanned_symbol-IsExtracted t src n name kind (node_span t src n) valid other
        (node_span-IsRange t src n))
]

pub signed-IsExtracted :
    (t : Tree) (src : Text) (signature : Symbol → Text) (o : Option Symbol)
    → Kept t src o
    → Kept t src (signed signature o)
signed-IsExtracted t src signature none h = tt
signed-IsExtracted t src signature (some s) h = record { range = h.range; c = h.c; kind = h.kind }

pub as_list-IsExtracted :
    (t : Tree) (src : Text) (o : Option Symbol) → Kept t src o → All (IsExtracted t src) (as_list o)
as_list-IsExtracted t src none h = tt
as_list-IsExtracted t src (some s) h = (h, tt)
