-- ===== src/Parser/Golang/Engine.antt =====
-- internal/ast/parser/golang.go: `generic`, `Parse` and the engine.
use dotfs_mcp_server.Base.{
  ℕ, suc, Bool, Option, none, some, List, [], ◌∷◌, ◌++◌, Text, txt, occurs, Result, ok, err, Error,
  wrapped,
}
use dotfs_mcp_server.Ast.{language_go}
use dotfs_mcp_server.Parser
use dotfs_mcp_server.Parser.{Symbol}
use dotfs_mcp_server.Parser.Golang.{
  Pos, Position, Token, type_token, const_token, var_token, import_token, GenDecl, Decl, func_decl,
  gen_decl, bad_decl, GoDecl, function,
}
use dotfs_mcp_server.Parser.Golang.Types.{push, type_specs}
use dotfs_mcp_server.Parser.Golang.Values.{value_specs}

-- What `parser.ParseFile` gives: the declarations, and the positions of the file set
pub record GoFile : Type 0 where
  pub decls : List Decl
  pub position : Pos → Position

-- The functions of Go's library that read Go: `parser.ParseFile` on a path and a source,
-- `strconv.Unquote` and `ast.IsExported`
pub record GoLibrary : Type 0 where
  pub parse_file : Text → Text → Result GoFile
  pub unquote : Text → Result Text
  pub is_exported : Text → Bool

module _ (lib : GoLibrary) where
  abbrev pub generic_by : GoDecl → GenDecl → Token → List Symbol
  generic_by g decl type_token = type_specs lib.unquote g decl decl.specs
  generic_by g decl const_token = value_specs lib.is_exported g decl
  generic_by g decl var_token = value_specs lib.is_exported g decl
  generic_by g decl import_token = []

  -- `generic`
  unfoldable pub generic : GoDecl → GenDecl → List Symbol
  unfolding type_specs value_specs
  generic g decl = generic_by g decl decl.tok

  -- The symbols of one declaration
  unfoldable pub declared : GoDecl → Decl → List Symbol
  unfolding function generic
  declared g (func_decl fn) = push lib.unquote (function g fn) []
  declared g (gen_decl decl) = generic g decl
  declared g bad_decl = []

  abbrev pub unless_done : Option Error → Result (List Symbol) → Result (List Symbol)
  unless_done (some e) rest = err e
  unless_done none rest = rest

  abbrev pub append_to : List Symbol → Result (List Symbol) → Result (List Symbol)
  append_to syms (err e) = err e
  append_to syms (ok rest) = ok (syms ++ rest)

  -- The loop of `Parse`; `ctx` is what `ctx.Err()` gives when it is asked for the n-th time.
  unfoldable pub parse_decls : (ℕ → Option Error) → GoDecl → ℕ → List Decl → Result (List Symbol)
  unfolding declared
  parse_decls ctx g n [] = ok []
  parse_decls ctx g n (d ∷ ds) =
      unless_done (ctx n) (append_to (declared g d) (parse_decls ctx g (suc n) ds))

  abbrev pub parse_parsed : (ℕ → Option Error) → Text → Result GoFile → Result (List Symbol)
  parse_parsed ctx src (err e) = err e
  parse_parsed ctx src (ok file) =
      parse_decls ctx (record { position = file.position; src = src }) 1 file.decls

  -- No symbol leaves the slice nil.
  abbrev pub nil_if_empty : Result (List Symbol) → Result (Option (List Symbol))
  nil_if_empty (err e) = err e
  nil_if_empty (ok []) = ok none
  nil_if_empty (ok (sym ∷ syms)) = ok (some (sym ∷ syms))

  -- `Parse`
  unfoldable pub parse : (ℕ → Option Error) → Text → Text → Result (Option (List Symbol))
  unfolding parse_decls
  parse ctx path src = nil_if_empty (
      unless_done (ctx 0)
        (parse_parsed ctx src (wrapped (txt "parse go file") (lib.parse_file path src))))

  -- `GoEngine`
  unfoldable pub go_engine : (ℕ → Option Error) → Parser.Engine
  unfolding parse occurs
  go_engine ctx = record {
    language = language_go;
    extensions = txt ".go" ∷ [];
    parse = parse ctx;
    prefilter = occurs (txt "package ");
  }
