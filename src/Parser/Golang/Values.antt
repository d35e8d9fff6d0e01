-- ===== src/Parser/Golang/Values.antt =====
-- internal/ast/parser/golang.go: `valueSpecs`, constants and exported variables.
use dotfs_mcp_server.Base.{
  ℕ, suc, Bool, true, false, not, ◌&&◌, ◌||◌, Option, none, some, List, [], ◌∷◌, ◌++◌, Text, txt,
  ◌==◌, nat_eq, bytes_eq, length, pos, if◌then◌else◌,
}
use dotfs_mcp_server.Ast.{symbol_constant, language_go}
use dotfs_mcp_server.Parser.{Symbol, clean_comment, first_line}
use dotfs_mcp_server.Parser.Golang.{
  is_valid, ValueSpec, Spec, type_spec, value_spec, import_spec, Token, type_token, const_token,
  var_token, import_token, GenDecl, GoDecl, Span, span, slice,
}
use dotfs_mcp_server.Parser.Golang.Types.{or_doc}

-- The specification that the loop of `constBlockScope` stops at, with its place in the block
abbrev pub block_name : ℕ → ℕ → ℕ → Text → Text
block_name self count i first = if i == self && count == 1 then [] else first ++ txt " block"

unfoldable pub block_scope : ℕ → ℕ → ℕ → List Spec → Text
unfolding nat_eq
block_scope self count i [] = []
block_scope self count i (value_spec vs ∷ specs) =
    let rest = block_scope self count (suc i) specs in
    elim vs.names [ [] ↦ rest | first ∷ names ↦ block_name self count i first ]
block_scope self count i (type_spec ts ∷ specs) = block_scope self count (suc i) specs
block_scope self count i (import_spec ∷ specs) = block_scope self count (suc i) specs

-- `constBlockScope`; `self` is the place of the specification in the block.
unfoldable pub const_block_scope : GenDecl → ℕ → Text
unfolding block_scope
const_block_scope decl self =
    if not (is_valid decl.lparen) then [] else block_scope self (length decl.specs) 0 decl.specs

abbrev is_var : Token → Bool
is_var var_token = true
is_var const_token = false
is_var type_token = false
is_var import_token = false

abbrev keyword : Token → Text
keyword tok = if is_var tok then txt "var" else txt "const"

module _ (is_exported : Text → Bool) (g : GoDecl) (decl : GenDecl) (block : Span) where
  -- The symbol of one identifier
  abbrev pub value_symbol : ℕ → ValueSpec → Span → Text → Symbol
  value_symbol i vs r name = record {
    name = name;
    aliases = [];
    symbol_type = symbol_constant;
    parent_scope = const_block_scope decl i;
    signature = keyword decl.tok ++ txt " " ++ first_line (slice g.src r);
    documentation = clean_comment (or_doc (or_doc vs.doc decl.doc) vs.comment);
    source_code = slice g.src block;
    language = language_go;
    start_byte = pos r.start;
    end_byte = pos r.stop;
    start_line = r.start_line;
    end_line = r.stop_line;
  }

  -- The identifiers that are passed over
  abbrev pub is_passed_over : Text → Bool
  is_passed_over name = name == txt "_" || (is_var decl.tok && not (is_exported name))

  unfoldable pub value_names : ℕ → ValueSpec → Span → List Text → List Symbol
  unfolding const_block_scope first_line slice clean_comment bytes_eq
  value_names i vs r [] = []
  value_names i vs r (name ∷ names) =
      let rest = value_names i vs r names in
      if is_passed_over name then rest else value_symbol i vs r name ∷ rest

  abbrev pub spanned_values : ℕ → ValueSpec → Option Span → List Symbol
  spanned_values i vs none = []
  spanned_values i vs (some r) = value_names i vs r vs.names

  -- The loop over the specifications
  unfoldable pub values_loop : ℕ → List Spec → List Symbol
  unfolding span value_names
  values_loop i [] = []
  values_loop i (value_spec vs ∷ specs) =
      spanned_values i vs (span g vs.start vs.stop) ++ values_loop (suc i) specs
  values_loop i (type_spec ts ∷ specs) = values_loop (suc i) specs
  values_loop i (import_spec ∷ specs) = values_loop (suc i) specs

abbrev pub in_block : (Text → Bool) → GoDecl → GenDecl → Option Span → List Symbol
in_block is_exported g decl none = []
in_block is_exported g decl (some block) = values_loop is_exported g decl block 0 decl.specs

-- `valueSpecs`
unfoldable pub value_specs : (Text → Bool) → GoDecl → GenDecl → List Symbol
unfolding span values_loop
value_specs is_exported g decl = in_block is_exported g decl (span g decl.start decl.stop)
