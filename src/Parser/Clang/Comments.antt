-- ===== src/Parser/Clang/Comments.antt =====
-- internal/ast/parser/clang.go: the comments in front of a node, and the fields of a symbol.
use mathlib.Core.WellFounded.{Acc}
use dotfs_mcp_server.Base.{
  ℕ, zero, suc, Bool, not, ◌||◌, Option, none, some, List, [], ◌∷◌, Text, txt, ◌==◌, nat_eq,
  bytes_eq, is_empty, length, ltb, join, pos, if◌then◌else◌,
}
use dotfs_mcp_server.Ast.{SymbolType, blank, language_c}
use dotfs_mcp_server.Parser.{Symbol, clean_comment, first_line}
use dotfs_mcp_server.Parser.Golang.{Span, slice}
use dotfs_mcp_server.Parser.Clang.{Tree, node_span, line_feeds}

module _ (t : Tree) (src : Text) where
  -- The bytes between a comment and what follows it
  abbrev gap : t.Node → t.Node → Text
  gap cursor next = slice src (record {
    start = t.end_byte cursor;
    stop = t.start_byte next;
    start_line = pos 0;
    stop_line = pos 0;
  })

  -- Does the comment belong to something else?
  abbrev is_apart : t.Node → t.Node → Bool
  is_apart cursor next =
      ltb (t.start_byte next) (t.end_byte cursor)
      || ltb (length src) (t.start_byte next)
      || ltb 1 (line_feeds (gap cursor next))

  -- The loop of `precedingComments`
  unfoldable pub comments_before : (n : t.Node) → Acc t.IsBefore n → List Text → List Text
  unfolding line_feeds slice bytes_eq
  comments_before next (Acc.intro _ smaller) blocks = elim (t.prev_sibling next) [
    | none ↦ blocks
    | some (cursor, is) ↦
        let rest = comments_before cursor (smaller cursor is) (t.content cursor src ∷ blocks) in
        if not (t.kind cursor == txt "comment") || is_apart cursor next then blocks else rest
  ]

  abbrev comment_text : List Text → Text
  comment_text blocks = if is_empty blocks then [] else clean_comment (join (b'\n' ∷ []) blocks)

  -- `precedingComments`
  unfoldable pub preceding_comments : t.Node → Text
  unfolding comments_before clean_comment join
  preceding_comments n = comment_text (comments_before n (t.leftwards n) [])

  -- `docForNode`, with the levels that are left
  unfoldable pub doc_for : ℕ → t.Node → Text
  unfolding preceding_comments bytes_eq
  doc_for zero n = []
  doc_for (suc depth) n =
      let doc = preceding_comments n in
      let above : Text = elim (t.parent n) [
        | none ↦ []
        | some p ↦
            let rest = doc_for depth p in if t.kind p == txt "translation_unit" then [] else rest
      ] in
      if is_empty doc then above else doc

  unfoldable pub doc_for_node : t.Node → Text
  unfolding doc_for
  doc_for_node n = doc_for 3 n

  abbrev pub spanned_symbol : t.Node → Text → SymbolType → Option Span → Option Symbol
  spanned_symbol n name kind none = none
  spanned_symbol n name kind (some r) = some (record {
    name = name;
    aliases = [];
    symbol_type = kind;
    parent_scope = [];
    signature = first_line (slice src r);
    documentation = doc_for_node n;
    source_code = slice src r;
    language = language_c;
    start_byte = pos r.start;
    end_byte = pos r.stop;
    start_line = r.start_line;
    end_line = r.stop_line;
  })

  -- `newCSymbol`
  unfoldable pub new_c_symbol : t.Node → Text → SymbolType → Option Symbol
  unfolding node_span first_line slice doc_for_node
  new_c_symbol n name kind =
      if blank name then none else spanned_symbol n name kind (node_span t src n)
