-- ===== src/Tests/Engines.antt =====
-- Runs of internal/ast/parser/golang.go on a file with one method, and on one with blocks of a
-- constant and of a type.
use dotfs_mcp_server.Base.{
  ℕ, zero, suc, ◌≡◌, refl, true, Option, none, some, List, [], ◌∷◌, ◌++◌, Text, txt, nat_eq, pos,
  Result, ok, err, Error, Ensures, map, bytes_eq,
}
use dotfs_mcp_server.Parser.{Symbol}
use dotfs_mcp_server.Parser.Golang.{
  Pos, Position, ident, star, FuncDecl, func_decl, GenDecl, gen_decl, const_token, type_token,
  value_spec, type_spec, other_type,
}
use dotfs_mcp_server.Parser.Golang.Engine.{GoLibrary, parse}
use dotfs_mcp_server.Parser.Golang.Laws.{AllDeclared, parse-AllDeclared}

abbrev source : Text
source = txt "package p" ++ (b'\n' ∷ txt "func (s *S) Run() {}")

-- The method begins behind the first line.
abbrev run_method : FuncDecl
run_method = record {
  name = some (txt "Run");
  doc = [];
  start = 11;
  stop = 31;
  body = some 29;
  recv = some (star (ident (txt "S")) ∷ []);
}

abbrev position_of : Pos → Position
position_of zero = record { offset = pos 0; line = pos 0 }
position_of (suc p) = record { offset = pos p; line = pos 2 }

abbrev go_library : GoLibrary
go_library = record {
  parse_file =
      λ path src. ok (record { decls = func_decl run_method ∷ []; position = position_of });
  unquote = λ raw. ok raw;
  is_exported = λ name. true;
}

abbrev never : ℕ → Option Error
never n = none

abbrev aliases_of : Result (Option (List Symbol)) → List (List Text)
aliases_of (err e) = []
aliases_of (ok none) = []
aliases_of (ok (some syms)) = map (λ (s : Symbol). s.aliases) syms

-- The method is found as S.Run too.
parse_run : aliases_of (parse go_library never (txt "p.go") source) ≡ (txt "S.Run" ∷ []) ∷ []
unfolding parse
parse_run = refl

-- A file with a block of one constant and a block of one type
abbrev blocks_source : Text
blocks_source = txt "package p" ++ (b'\n' ∷ txt "const (A = 1)" ++ (b'\n' ∷ txt "type (T int)"))

abbrev const_block : GenDecl
const_block = record {
  tok = const_token;
  doc = [];
  start = 11;
  stop = 24;
  lparen = 17;
  specs =
      value_spec (record { names = txt "A" ∷ []; doc = []; comment = []; start = 18; stop = 23 })
      ∷ [];
}

abbrev type_block : GenDecl
type_block = record {
  tok = type_token;
  doc = [];
  start = 25;
  stop = 37;
  lparen = 30;
  specs =
      type_spec (record {
        name = some (txt "T");
        doc = [];
        start = 31;
        stop = 36;
        assign = 0;
        type_expr = other_type (txt "int");
      })
      ∷ [];
}

abbrev blocks_library : GoLibrary
blocks_library = record go_library {
  parse_file = λ path src.
      ok (record {
        decls = gen_decl const_block ∷ gen_decl type_block ∷ [];
        position = position_of;
      });
}

abbrev code_of : Result (Option (List Symbol)) → List (Text × Text)
code_of (err e) = []
code_of (ok none) = []
code_of (ok (some syms)) = map (λ (s : Symbol). (s.name, s.source_code)) syms

-- The constant carries its block, and the type gets the keyword in front.
blocks_run :
    code_of (parse blocks_library never (txt "p.go") blocks_source)
    ≡ (txt "A", txt "const (A = 1)") ∷ (txt "T", txt "type T int") ∷ []
unfolding parse
blocks_run = refl

parse-AllDeclared_example :
    Ensures
      (AllDeclared blocks_library (txt "p.go") blocks_source)
      (parse blocks_library never (txt "p.go") blocks_source)
parse-AllDeclared_example = parse-AllDeclared blocks_library never (txt "p.go") blocks_source
