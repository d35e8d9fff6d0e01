-- ===== src/Parser/Clang/Walk.antt =====
-- internal/ast/parser/clang.go: the walk over the tree, `Parse` and the engine.
use mathlib.Core.WellFounded.{Acc}
use dotfs_mcp_server.Base.{
  ℕ, Bool, true, false, ◌||◌, Option, none, some, List, [], ◌∷◌, ◌++◌, map, Text, txt, ◌==◌,
  bytes_eq, length, ltb, Result, ok, err, Error, message, wrapped, if◌then◌else◌,
}
use dotfs_mcp_server.Ast.{language_c}
use dotfs_mcp_server.Parser
use dotfs_mcp_server.Parser.{Symbol}
use dotfs_mcp_server.Parser.Clang.{Tree, c_tokens, c_prefilter}
use dotfs_mcp_server.Parser.Clang.Declarations.{
  as_list, c_function_definition, c_prototype, c_object_macro, c_function_macro, c_record, c_enum,
  c_typedefs,
}

unfoldable pub joined_lists : List (List Symbol) → List Symbol
joined_lists [] = []
joined_lists (xs ∷ xss) = xs ++ joined_lists xss

module _ (t : Tree) (src : Text) where
  -- The visitor of `Parse`: the symbols of a node, and whether to descend
  abbrev pub visit_kind : t.Node → Text → List Symbol × Bool
  visit_kind n kind =
      if kind == txt "function_definition"
      then (as_list (c_function_definition t src n), false)
      else if kind == txt "preproc_def"
      then (as_list (c_object_macro t src n), false)
      else if kind == txt "preproc_function_def"
      then (as_list (c_function_macro t src n), false)
      else if kind == txt "struct_specifier" || kind == txt "union_specifier"
      then (as_list (c_record t src n), true)
      else if kind == txt "enum_specifier"
      then (c_enum t src n, false)
      else if kind == txt "type_definition"
      then (c_typedefs t src n, true)
      else if kind == txt "declaration"
      then (as_list (c_prototype t src n), true)
      else ([], true)

  unfoldable pub visit : t.Node → List Symbol × Bool
  unfolding c_function_definition c_prototype c_object_macro c_function_macro c_record c_enum
      c_typedefs bytes_eq
  visit n = visit_kind n (t.kind n)

  -- `walkC` with the visitor
  unfoldable pub walk : (n : t.Node) → Acc t.IsChild n → List Symbol
  unfolding visit joined_lists
  walk n (Acc.intro _ smaller) =
      let below = joined_lists (
        map (λ (p : (c : t.Node) × t.IsChild c n). walk p.0 (smaller p.0 p.1))
          (t.named_children n)) in
      if (visit n).1 then (visit n).0 ++ below else (visit n).0

-- No symbol leaves the slice nil.
abbrev pub listed : List Symbol → Option (List Symbol)
listed [] = none
listed (s ∷ ss) = some (s ∷ ss)

-- `math.MaxUint32`
abbrev max_uint32 : ℕ
max_uint32 = 4294967295

-- The Tree-sitter parser with the grammar of C, on a source
pub record CLibrary : Type 1 where
  pub tree : Tree
  pub parse_tree : Text → Result tree.Node

module _ (lib : CLibrary) where
  abbrev pub walked : Text → Result lib.tree.Node → Result (Option (List Symbol))
  walked src (err e) = err e
  walked src (ok root) = ok (listed (walk lib.tree src root (lib.tree.downwards root)))

  abbrev pub within_limit : Text → Bool → Result (Option (List Symbol))
  within_limit src true = err (message (txt "c file exceeds the tree-sitter byte limit"))
  within_limit src false = walked src (wrapped (txt "tree-sitter parse") (lib.parse_tree src))

  abbrev pub unless_ended : Text → Option Error → Result (Option (List Symbol))
  unless_ended src (some e) = err e
  unless_ended src none = within_limit src (ltb max_uint32 (length src))

  -- `Parse`
  unfoldable pub parse_c : Option Error → Text → Text → Result (Option (List Symbol))
  unfolding walk
  parse_c ctx path src = unless_ended src ctx

  -- `CEngine`
  unfoldable pub c_engine : Option Error → Parser.Engine
  unfolding parse_c c_prefilter
  c_engine ctx = record {
    language = language_c;
    extensions = txt ".c" ∷ txt ".h" ∷ [];
    parse = parse_c ctx;
    prefilter = c_prefilter c_tokens;
  }
