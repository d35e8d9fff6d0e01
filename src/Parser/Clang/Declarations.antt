-- ===== src/Parser/Clang/Declarations.antt =====
-- internal/ast/parser/clang.go: the symbols of one node.
use dotfs_mcp_server.Base.{
  ◌-◌, not, ◌||◌, Option, none, some, List, [], ◌∷◌, ◌++◌, Text, txt, ◌==◌, bytes_eq, is_empty,
  trim_suffix, take, drop, pos, if◌then◌else◌,
}
use dotfs_mcp_server.Ast.{
  symbol_function, symbol_macro, symbol_macro_function, symbol_struct, symbol_enum, symbol_constant,
  symbol_typedef, language_c,
}
use dotfs_mcp_server.Parser.{Symbol, first_line, append_section}
use dotfs_mcp_server.Parser.Golang.{Span, slice}
use dotfs_mcp_server.Parser.Clang.{Tree, node_span, field_of, children_of, is_same, name_of}
use dotfs_mcp_server.Parser.Clang.Comments.{new_c_symbol, doc_for_node}

abbrev pub signed : (Symbol → Text) → Option Symbol → Option Symbol
signed signature none = none
signed signature (some sym) = some (record sym { signature = signature sym })

abbrev pub as_list : Option Symbol → List Symbol
as_list none = []
as_list (some sym) = sym ∷ []

module _ (t : Tree) (src : Text) where
  -- The text in front of the body of a function
  abbrev header_of : t.Node → Symbol → Option t.Node → Option Span → Text
  header_of n sym none r = sym.signature
  header_of n sym (some body) none = sym.signature
  header_of n sym (some body) (some r) =
      first_line (take (t.start_byte body - r.start) (drop r.start src))

  abbrev name_or_none : Option t.Node → Text
  name_or_none none = []
  name_or_none (some n) = name_of t src n

  -- `cFunctionDefinition`
  unfoldable pub c_function_definition : t.Node → Option Symbol
  unfolding new_c_symbol name_of first_line node_span
  c_function_definition n =
      signed (λ sym. header_of n sym (field_of t src n (txt "body")) (node_span t src n))
        (new_c_symbol t src n (name_or_none (field_of t src n (txt "declarator"))) symbol_function)

  abbrev pub prototype_of : t.Node → Option t.Node → Option Symbol
  prototype_of n none = none
  prototype_of n (some inner) =
      if not (t.kind inner == txt "identifier")
      then none
      else signed (λ sym. trim_suffix (txt ";") sym.signature)
          (new_c_symbol t src n (t.content inner src) symbol_function)

  abbrev pub declared_by : t.Node → Option t.Node → Option Symbol
  declared_by n none = none
  declared_by n (some fn) =
      if not (t.kind fn == txt "function_declarator")
      then none
      else prototype_of n (field_of t src fn (txt "declarator"))

  -- `cPrototype`
  unfoldable pub c_prototype : t.Node → Option Symbol
  unfolding new_c_symbol trim_suffix bytes_eq
  c_prototype n = declared_by n (field_of t src n (txt "declarator"))

  abbrev value_of : Option t.Node → Text
  value_of none = []
  value_of (some v) = txt " " ++ first_line (t.content v src)

  abbrev pub object_macro_of : t.Node → Option t.Node → Option Symbol
  object_macro_of n none = none
  object_macro_of n (some name) =
      signed (λ sym. txt "#define " ++ sym.name ++ value_of (field_of t src n (txt "value")))
        (new_c_symbol t src n (t.content name src) symbol_macro)

  -- `cObjectMacro`
  unfoldable pub c_object_macro : t.Node → Option Symbol
  unfolding new_c_symbol first_line
  c_object_macro n = object_macro_of n (field_of t src n (txt "name"))

  abbrev content_or_none : Option t.Node → Text
  content_or_none none = []
  content_or_none (some p) = t.content p src

  abbrev pub function_macro_of : t.Node → Option t.Node → Option Symbol
  function_macro_of n none = none
  function_macro_of n (some name) =
      signed
        (λ sym. txt "#define " ++ sym.name ++ content_or_none (field_of t src n (txt "parameters")))
        (new_c_symbol t src n (t.content name src) symbol_macro_function)

  -- `cFunctionMacro`
  unfoldable pub c_function_macro : t.Node → Option Symbol
  unfolding new_c_symbol
  c_function_macro n = function_macro_of n (field_of t src n (txt "name"))

  -- The names that the declarators of one field introduce
  unfoldable pub declarators : Option t.Node → List t.Node → List Text
  unfolding name_of
  declarators type [] = []
  declarators type (n ∷ ns) =
      let rest = declarators type ns in
      if is_same t src n type || is_empty (name_of t src n) then rest else name_of t src n ∷ rest

  -- `recordFields`, on the children of the body
  unfoldable pub record_fields : List t.Node → List Text
  unfolding declarators bytes_eq
  record_fields [] = []
  record_fields (n ∷ ns) =
      let rest = record_fields ns in
      if not (t.kind n == txt "field_declaration")
      then rest
      else declarators (field_of t src n (txt "type")) (children_of t src n) ++ rest

  abbrev pub documented : Text → List Text → Option Symbol → Option Symbol
  documented keyword fields none = none
  documented keyword fields (some sym) = some (record sym {
    signature = keyword ++ txt " " ++ sym.name;
    documentation = append_section sym.documentation (txt "Fields") fields;
  })

  abbrev record_keyword : t.Node → Text
  record_keyword n = if t.kind n == txt "union_specifier" then txt "union" else txt "struct"

  abbrev pub record_of : t.Node → Option t.Node → Option t.Node → Option Symbol
  record_of n none body = none
  record_of n (some name) none = none
  record_of n (some name) (some body) =
      if not (t.kind body == txt "field_declaration_list")
      then none
      else documented (record_keyword n) (record_fields (children_of t src body))
          (new_c_symbol t src n (t.content name src) symbol_struct)

  -- `cRecord`
  unfoldable pub c_record : t.Node → Option Symbol
  unfolding new_c_symbol record_fields append_section bytes_eq
  c_record n = record_of n (field_of t src n (txt "name")) (field_of t src n (txt "body"))

  -- The first name that a type definition introduces
  unfoldable pub typedef_name : Option t.Node → List t.Node → Text
  unfolding name_of bytes_eq
  typedef_name underlying [] = []
  typedef_name underlying (n ∷ ns) =
      let rest = typedef_name underlying ns in
      if is_same t src n underlying || t.kind n == txt "comment" || is_empty (name_of t src n)
      then rest
      else name_of t src n

  -- `enclosingTypedefName`, on the parent
  abbrev enclosing_name : Option t.Node → Text
  enclosing_name none = []
  enclosing_name (some p) =
      if not (t.kind p == txt "type_definition")
      then []
      else typedef_name (field_of t src p (txt "type")) (children_of t src p)

  abbrev enum_scope : t.Node → Option t.Node → Text
  enum_scope n none = enclosing_name (t.parent n)
  enum_scope n (some name) = t.content name src

  abbrev pub enum_itself : t.Node → Option t.Node → List Symbol
  enum_itself n none = []
  enum_itself n (some name) = as_list (
      signed (λ sym. txt "enum " ++ sym.name)
        (new_c_symbol t src n (t.content name src) symbol_enum))

  abbrev pub block_of : Option Span → Text
  block_of none = []
  block_of (some r) = slice src r

  abbrev pub enumerator_of :
      t.Node → t.Node → Option t.Node → Option Span → List Symbol → List Symbol
  enumerator_of whole n none o rest = rest
  enumerator_of whole n (some name) none rest = rest
  enumerator_of whole n (some name) (some r) rest =
      record {
        name = t.content name src;
        aliases = [];
        symbol_type = symbol_constant;
        parent_scope = enum_scope whole (field_of t src whole (txt "name"));
        signature = first_line (slice src r);
        documentation =
            if is_empty (doc_for_node t src n)
            then doc_for_node t src whole
            else doc_for_node t src n;
        source_code = block_of (node_span t src whole);
        language = language_c;
        start_byte = pos r.start;
        end_byte = pos r.stop;
        start_line = r.start_line;
        end_line = r.stop_line;
      }
      ∷ rest

  -- The loop over the children of an enum's body
  unfoldable pub enumerators : t.Node → List t.Node → List Symbol
  unfolding doc_for_node node_span slice first_line typedef_name bytes_eq
  enumerators whole [] = []
  enumerators whole (n ∷ ns) =
      let rest = enumerators whole ns in
      if not (t.kind n == txt "enumerator")
      then rest
      else enumerator_of whole n (field_of t src n (txt "name")) (node_span t src n) rest

  abbrev pub enum_of : t.Node → Option t.Node → List Symbol
  enum_of n none = []
  enum_of n (some body) =
      if not (t.kind body == txt "enumerator_list")
      then []
      else enum_itself n (field_of t src n (txt "name")) ++ enumerators n (children_of t src body)

  -- `cEnum`
  unfoldable pub c_enum : t.Node → List Symbol
  unfolding new_c_symbol enumerators bytes_eq
  c_enum n = enum_of n (field_of t src n (txt "body"))

  -- The loop of `cTypedefs`
  unfoldable pub typedefs : t.Node → Option t.Node → List t.Node → List Symbol
  unfolding new_c_symbol name_of bytes_eq
  typedefs whole underlying [] = []
  typedefs whole underlying (n ∷ ns) =
      let rest = typedefs whole underlying ns in
      if is_same t src n underlying || t.kind n == txt "comment" || is_empty (name_of t src n)
      then rest
      else as_list (
          signed (λ sym. txt "typedef " ++ name_of t src n)
            (new_c_symbol t src whole (name_of t src n) symbol_typedef))
        ++ rest

  -- `cTypedefs`
  unfoldable pub c_typedefs : t.Node → List Symbol
  unfolding typedefs
  c_typedefs n = typedefs n (field_of t src n (txt "type")) (children_of t src n)
