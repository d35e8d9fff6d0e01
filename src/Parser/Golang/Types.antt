-- ===== src/Parser/Golang/Types.antt =====
-- internal/ast/parser/golang.go: `typeSpec`, structs and interfaces.
use dotfs_mcp_server.Base.{
  Option, none, some, List, [], ◌∷◌, ◌++◌, map, Text, txt, has_prefix, trim_prefix, join, is_empty,
  pos, Result, ok, err, if◌then◌else◌,
}
use dotfs_mcp_server.Ast.{
  blank, symbol_struct, symbol_interface, symbol_type_alias, symbol_typedef, language_go,
}
use dotfs_mcp_server.Parser.{Symbol, clean_comment, append_section}
use dotfs_mcp_server.Parser.Golang.{
  Pos, is_valid, Field, TypeExpr, struct_type, interface_type, other_type, TypeSpec, Spec,
  type_spec, value_spec, import_spec, GenDecl, GoDecl, Span, span, slice,
}

-- The first of the texts that is not blank, or the last one
abbrev pub or_doc : Text → Text → Text
or_doc doc fallback = if blank doc then fallback else doc

abbrev unquoted : Text → Result Text → Text
unquoted raw (err e) = raw
unquoted raw (ok tag) = tag

-- The label of a struct tag
abbrev label : Field → Text
label f = if is_empty f.names then f.type_string else join (txt "/") f.names

module _ (unquote : Text → Result Text) where
  -- `structDetails` with `strconv.Unquote`
  unfoldable pub struct_details : List Field → List Text × List Text
  unfolding join
  struct_details [] = ([], [])
  struct_details (f ∷ fs) =
      let more = struct_details fs in
      (
        (if is_empty f.names then f.type_string ∷ more.0 else more.0),
        elim f.tag [
          | none ↦ more.1
          | some raw ↦ (label f ++ txt " `" ++ unquoted raw (unquote raw) ++ txt "`") ∷ more.1
        ],
      )

  -- `interfaceDetails`
  unfoldable pub interface_details : List Field → List Text × List Text
  unfolding trim_prefix
  interface_details [] = ([], [])
  interface_details (f ∷ fs) =
      let more = interface_details fs in
      if is_empty f.names
      then (more.0, f.type_string ∷ more.1)
      else (map (λ n. n ++ trim_prefix (txt "func") f.type_string) f.names ++ more.0, more.1)

  abbrev listed : Option (List Field) → List Field
  listed none = []
  listed (some fs) = fs

  -- The cases of the switch on the type
  unfoldable pub with_type : Text → Pos → TypeExpr → Symbol → Symbol
  unfolding struct_details interface_details append_section
  with_type name assign (struct_type fields) sym =
      let details = struct_details (listed fields) in
      record sym {
        symbol_type = symbol_struct;
        signature = txt "type " ++ name ++ txt " struct";
        documentation =
            append_section (append_section sym.documentation (txt "Embedded fields") details.0)
              (txt "Struct tags") details.1;
      }
  with_type name assign (interface_type methods) sym =
      let details = interface_details (listed methods) in
      record sym {
        symbol_type = symbol_interface;
        signature = txt "type " ++ name ++ txt " interface";
        documentation =
            append_section (append_section sym.documentation (txt "Methods") details.0)
              (txt "Embedded interfaces") details.1;
      }
  with_type name assign (other_type rendered) sym =
      if is_valid assign
      then record sym {
        symbol_type = symbol_type_alias;
        signature = txt "type " ++ name ++ txt " = " ++ rendered;
      }
      else record sym {
        symbol_type = symbol_typedef;
        signature = txt "type " ++ name ++ txt " " ++ rendered;
      }

  -- A grouped specification has the keyword put in front.
  abbrev pub with_keyword : Text → Text
  with_keyword source = if has_prefix (txt "type ") source then source else txt "type " ++ source

  abbrev pub spanned_type : GoDecl → GenDecl → TypeSpec → Text → Option Span → Option Symbol
  spanned_type g decl ts name none = none
  spanned_type g decl ts name (some r) = some (
      with_type name ts.assign ts.type_expr (record {
        name = name;
        aliases = [];
        symbol_type = [];
        parent_scope = [];
        signature = [];
        documentation = clean_comment (or_doc ts.doc decl.doc);
        source_code = with_keyword (slice g.src r);
        language = language_go;
        start_byte = pos r.start;
        end_byte = pos r.stop;
        start_line = r.start_line;
        end_line = r.stop_line;
      }))

  abbrev type_start : GenDecl → TypeSpec → Pos
  type_start decl ts = if is_valid decl.lparen then ts.start else decl.start

  abbrev pub named_type : GoDecl → GenDecl → TypeSpec → Option Text → Option Symbol
  named_type g decl ts none = none
  named_type g decl ts (some name) =
      spanned_type g decl ts name (span g (type_start decl ts) ts.stop)

  abbrev pub push : Option Symbol → List Symbol → List Symbol
  push none out = out
  push (some sym) out = sym ∷ out

  -- The loop of `generic` over type specifications, with `typeSpec`
  unfoldable pub type_specs : GoDecl → GenDecl → List Spec → List Symbol
  unfolding span slice with_type clean_comment has_prefix
  type_specs g decl [] = []
  type_specs g decl (type_spec ts ∷ specs) =
      push (named_type g decl ts ts.name) (type_specs g decl specs)
  type_specs g decl (value_spec vs ∷ specs) = type_specs g decl specs
  type_specs g decl (import_spec ∷ specs) = type_specs g decl specs
