-- ===== src/Parser/Golang.antt =====
-- internal/ast/parser/golang.go: the Go engine. A node of go/ast is what the engine reads of it: a
-- comment group is the text of it, and a type carries what `types.ExprString` gives for it.
pub mod Types
pub mod Values
pub mod Engine
pub mod Declared
pub mod Symbols
pub mod Laws
use dotfs_mcp_server.Base.{
  ℕ, ◌-◌, Bool, true, false, ◌||◌, Option, none, some, List, [], ◌∷◌, ◌++◌, Text, txt, ◌==◌, nat_eq,
  is_empty, length, take, drop, ltb, leb, ℤ, pos, negsuc, not, Result, if◌then◌else◌,
}
use dotfs_mcp_server.Ast.{symbol_function, symbol_method, language_go}
use dotfs_mcp_server.Parser.{Symbol, clean_comment, first_line}

-- `token.Pos`; `NoPos` is 0.
abbrev pub Pos : Type 0
Pos = ℕ

-- `token.Pos.IsValid`
abbrev pub is_valid : Pos → Bool
is_valid p = not (p == 0)

-- `token.Position`
pub record Position : Type 0 where
  pub offset : ℤ
  pub line : ℤ

-- The type of a receiver
pub data Receiver : Type 0 where
  ident : Text → Receiver
  selector : Option Text → Receiver
  star : Receiver → Receiver
  index : Receiver → Receiver
  index_list : Receiver → Receiver
  paren : Receiver → Receiver
  other_receiver : Receiver

-- `ast.FuncDecl`: the body by its brace, the receiver list by the types of its fields
pub record FuncDecl : Type 0 where
  pub name : Option Text
  pub doc : Text
  pub start : Pos
  pub stop : Pos
  pub body : Option Pos
  pub recv : Option (List Receiver)

-- `ast.Field` of a struct or an interface
pub record Field : Type 0 where
  pub names : List Text
  pub type_string : Text
  pub tag : Option Text

-- The type of a type specification
pub data TypeExpr : Type 0 where
  struct_type : Option (List Field) → TypeExpr
  interface_type : Option (List Field) → TypeExpr
  other_type : Text → TypeExpr

-- `ast.TypeSpec`
pub record TypeSpec : Type 0 where
  pub name : Option Text
  pub doc : Text
  pub start : Pos
  pub stop : Pos
  pub assign : Pos
  pub type_expr : TypeExpr

-- `ast.ValueSpec`. The parser makes no nil identifier, which the engine would skip.
pub record ValueSpec : Type 0 where
  pub names : List Text
  pub doc : Text
  pub comment : Text
  pub start : Pos
  pub stop : Pos

pub data Spec : Type 0 where
  type_spec : TypeSpec → Spec
  value_spec : ValueSpec → Spec
  import_spec : Spec

pub data Token : Type 0 where
  type_token : Token
  const_token : Token
  var_token : Token
  import_token : Token

-- `ast.GenDecl`
pub record GenDecl : Type 0 where
  pub tok : Token
  pub doc : Text
  pub start : Pos
  pub stop : Pos
  pub lparen : Pos
  pub specs : List Spec

pub data Decl : Type 0 where
  func_decl : FuncDecl → Decl
  gen_decl : GenDecl → Decl
  bad_decl : Decl

-- `goDecl`: where `fset.Position` puts a position, and the source
pub record GoDecl : Type 0 where
  pub position : Pos → Position
  pub src : Text

-- What `span` gives: bytes from the start up to the stop, and the lines
pub record Span : Type 0 where
  pub start : ℕ
  pub stop : ℕ
  pub start_line : ℤ
  pub stop_line : ℤ

-- The test of `span` on the two offsets
abbrev pub span_of : Text → ℤ → ℤ → ℤ → ℤ → Option Span
span_of src (negsuc s) e start_line stop_line = none
span_of src (pos s) (negsuc e) start_line stop_line = none
span_of src (pos s) (pos e) start_line stop_line =
    if ltb (length src) e || leb e s
    then none
    else some (record { start = s; stop = e; start_line = start_line; stop_line = stop_line })

-- `span`
unfoldable pub span : GoDecl → Pos → Pos → Option Span
span g from to =
    span_of g.src (g.position from).offset (g.position to).offset (g.position from).line
      (g.position to).line

-- `src[sb:eb]`
unfoldable pub slice : Text → Span → Text
slice src r = take (r.stop - r.start) (drop r.start src)

-- The loop of `receiverName`
unfoldable pub receiver_type : Receiver → Text
receiver_type (ident name) = name
receiver_type (selector none) = []
receiver_type (selector (some name)) = name
receiver_type (star r) = receiver_type r
receiver_type (index r) = receiver_type r
receiver_type (index_list r) = receiver_type r
receiver_type (paren r) = receiver_type r
receiver_type other_receiver = []

-- `receiverName`
unfoldable pub receiver_name : Option (List Receiver) → Text
unfolding receiver_type
receiver_name none = []
receiver_name (some []) = []
receiver_name (some (r ∷ rs)) = receiver_type r

abbrev first_line_of : Text → Option Span → Text
first_line_of src none = []
first_line_of src (some r) = first_line (slice src r)

-- The end of the signature: the brace of the body, if there is one
abbrev signature_end : FuncDecl → Option Pos → Pos
signature_end fn none = fn.stop
signature_end fn (some brace) = brace

-- A function becomes a method by its receiver.
unfoldable pub with_receiver : Text → Symbol → Symbol
with_receiver recv sym = if is_empty recv then sym else record sym {
  symbol_type = symbol_method;
  parent_scope = recv;
  aliases = sym.aliases ++ (recv ++ txt "." ++ sym.name) ∷ [];
}

abbrev pub spanned_function : GoDecl → FuncDecl → Text → Option Span → Option Symbol
spanned_function g fn name none = none
spanned_function g fn name (some r) = some (
    with_receiver (receiver_name fn.recv) (record {
      name = name;
      aliases = [];
      symbol_type = symbol_function;
      parent_scope = [];
      signature = first_line_of g.src (span g fn.start (signature_end fn fn.body));
      documentation = clean_comment fn.doc;
      source_code = slice g.src r;
      language = language_go;
      start_byte = pos r.start;
      end_byte = pos r.stop;
      start_line = r.start_line;
      end_line = r.stop_line;
    }))

abbrev pub named_function : GoDecl → FuncDecl → Option Text → Option Symbol
named_function g fn none = none
named_function g fn (some name) = spanned_function g fn name (span g fn.start fn.stop)

-- `function`
unfoldable pub function : GoDecl → FuncDecl → Option Symbol
unfolding span slice with_receiver receiver_name clean_comment first_line
function g fn = named_function g fn fn.name
