-- ===== src/Parser/Clang/Laws/Nodes.antt =====
-- internal/ast/parser/clang.go: the symbols of one node, and of the tree.
use dotfs_mcp_server.Base.{
  ◌≡◌, refl, inl, inr, true, false, ◌||◌, Option, none, some, List, [], ◌∷◌, Text, txt, ◌==◌,
  bytes_eq, is_empty, Any, All, All-append, Bool-cases, arith,
}
use dotfs_mcp_server.Ast.{
  symbol_type_valid, symbol_function, symbol_macro, symbol_macro_function, symbol_struct,
  symbol_enum, symbol_typedef, symbol_constant,
}
use dotfs_mcp_server.Parser.{Symbol}
use dotfs_mcp_server.Parser.Golang.{Span}
use dotfs_mcp_server.Parser.Clang.{Tree, is_same, name_of, node_span, field_of, children_of}
use dotfs_mcp_server.Parser.Clang.Comments.{new_c_symbol}
use dotfs_mcp_server.Parser.Clang.Declarations.{
  signed, c_function_definition, prototype_of, declared_by, object_macro_of, function_macro_of,
  documented, record_of, enum_itself, block_of, enumerator_of, enumerators, enum_of, typedefs,
}
use dotfs_mcp_server.Parser.Clang.Laws.{
  IsExtracted, IsBlock, IsEnumerator, SpanRange, Kept, node_span-IsRange, new_c_symbol-IsExtracted,
  signed-IsExtracted, as_list-IsExtracted,
}

module _ (t : Tree) (src : Text) where
  -- A node with a name and a kind gives a symbol, whatever its signature is then.
  named-IsExtracted :
      (n : t.Node) (name kind : Text) (signature : Symbol → Text)
      → symbol_type_valid kind ≡ true
      → (kind == symbol_constant) ≡ false
      → Kept t src (signed signature (new_c_symbol t src n name kind))
  named-IsExtracted n name kind signature valid other =
      signed-IsExtracted t src signature _ (new_c_symbol-IsExtracted t src n name kind valid other)

  pub c_function_definition-IsExtracted : (n : t.Node) → Kept t src (c_function_definition t src n)
  unfolding c_function_definition symbol_type_valid bytes_eq
  c_function_definition-IsExtracted n = named-IsExtracted n _ symbol_function _ refl refl

  prototype_of-IsExtracted : (n : t.Node) (o : Option t.Node) → Kept t src (prototype_of t src n o)
  unfolding symbol_type_valid bytes_eq
  prototype_of-IsExtracted n none = tt
  prototype_of-IsExtracted n (some inner) = elim (Bool-cases (t.kind inner == txt "identifier")) [
    | inl e ↦ rw e (named-IsExtracted n _ symbol_function _ refl refl)
    | inr e ↦ rw e tt
  ]

  pub declared_by-IsExtracted :
      (n : t.Node) (o : Option t.Node) → Kept t src (declared_by t src n o)
  declared_by-IsExtracted n none = tt
  declared_by-IsExtracted n (some fn) = elim (Bool-cases (t.kind fn == txt "function_declarator")) [
    | inl e ↦ rw e (prototype_of-IsExtracted n _)
    | inr e ↦ rw e tt
  ]

  pub object_macro_of-IsExtracted :
      (n : t.Node) (o : Option t.Node) → Kept t src (object_macro_of t src n o)
  unfolding symbol_type_valid bytes_eq
  object_macro_of-IsExtracted n none = tt
  object_macro_of-IsExtracted n (some name) = named-IsExtracted n _ symbol_macro _ refl refl

  pub function_macro_of-IsExtracted :
      (n : t.Node) (o : Option t.Node) → Kept t src (function_macro_of t src n o)
  unfolding symbol_type_valid bytes_eq
  function_macro_of-IsExtracted n none = tt
  function_macro_of-IsExtracted n (some name) =
      named-IsExtracted n _ symbol_macro_function _ refl refl

  documented-IsExtracted :
      (keyword : Text) (fields : List Text) (o : Option Symbol)
      → Kept t src o
      → Kept t src (documented t src keyword fields o)
  documented-IsExtracted keyword fields none h = tt
  documented-IsExtracted keyword fields (some s) h = record {
    range = h.range;
    c = h.c;
    kind = h.kind;
  }

  pub record_of-IsExtracted :
      (n : t.Node) (name body : Option t.Node) → Kept t src (record_of t src n name body)
  unfolding symbol_type_valid bytes_eq
  record_of-IsExtracted n none body = tt
  record_of-IsExtracted n (some name) none = tt
  record_of-IsExtracted n (some name) (some body) =
      elim (Bool-cases (t.kind body == txt "field_declaration_list")) [
        | inl e ↦ rw e (
            documented-IsExtracted _ _ _
              (new_c_symbol-IsExtracted t src n _ symbol_struct refl refl))
        | inr e ↦ rw e tt
      ]

  enum_itself-IsExtracted :
      (n : t.Node) (o : Option t.Node) → All (IsExtracted t src) (enum_itself t src n o)
  unfolding symbol_type_valid bytes_eq
  enum_itself-IsExtracted n none = tt
  enum_itself-IsExtracted n (some name) =
      as_list-IsExtracted t src _ (named-IsExtracted n _ symbol_enum _ refl refl)

  block_of-IsBlock :
      (whole : t.Node) (o : Option Span)
      → node_span t src whole ≡ o
      → IsBlock t src whole (block_of t src o)
  block_of-IsBlock whole none is = inr (is, refl)
  block_of-IsBlock whole (some block) is = inl (block, is, refl)

  enumerator_of-IsExtracted :
      (whole n : t.Node) (name : Option t.Node) (o : Option Span) (rest : List Symbol)
      → SpanRange src o
      → ((r : Span) → o ≡ some r → IsEnumerator t src r whole n)
      → All (IsExtracted t src) rest
      → All (IsExtracted t src) (enumerator_of t src whole n name o rest)
  unfolding symbol_type_valid bytes_eq
  enumerator_of-IsExtracted whole n none o rest h is all = all
  enumerator_of-IsExtracted whole n (some name) none rest h is all = all
  enumerator_of-IsExtracted whole n (some name) (some r) rest h is all = (
    record {
      range = (
        r,
        h,
        refl,
        refl,
        refl,
        refl,
        inr (refl, whole, n, is r refl, block_of-IsBlock whole (node_span t src whole) refl),
      );
      c = refl;
      kind = refl;
    },
    all,
  )

  module _ (whole body : t.Node) (enum : t.kind whole ≡ txt "enum_specifier")
      (has_body : field_of t src whole (txt "body") ≡ some body) where
    enumerators-IsExtracted :
        (ns : List t.Node)
        → ((n : t.Node) → Any (λ x. x ≡ n) ns → Any (λ x. x ≡ n) (children_of t src body))
        → All (IsExtracted t src) (enumerators t src whole ns)
    unfolding enumerators
    enumerators-IsExtracted [] inside = tt
    enumerators-IsExtracted (n ∷ ns) inside = elim (Bool-cases (t.kind n == txt "enumerator")) [
      | inl e ↦ rw e (
          enumerator_of-IsExtracted whole n _ _ _ (node_span-IsRange t src n)
            (λ r at. record {
              enum = enum;
              enumerator = ground (arith, e);
              range = at;
              within = (body, has_body, inside n (inl refl));
            })
            (enumerators-IsExtracted ns (λ m h. inside m (inr h))))
      | inr e ↦ rw e (enumerators-IsExtracted ns (λ m h. inside m (inr h)))
    ]

  pub enum_of-IsExtracted :
      (n : t.Node) (o : Option t.Node)
      → t.kind n ≡ txt "enum_specifier"
      → field_of t src n (txt "body") ≡ o
      → All (IsExtracted t src) (enum_of t src n o)
  enum_of-IsExtracted n none enum at = tt
  enum_of-IsExtracted n (some body) enum at =
      elim (Bool-cases (t.kind body == txt "enumerator_list")) [
        | inl e ↦ rw e (
            All-append (IsExtracted t src) _ _ (enum_itself-IsExtracted n _)
              (enumerators-IsExtracted n body enum at (children_of t src body) (λ m h. h)))
        | inr e ↦ rw e tt
      ]

  pub typedefs-IsExtracted :
      (whole : t.Node) (underlying : Option t.Node) (ns : List t.Node)
      → All (IsExtracted t src) (typedefs t src whole underlying ns)
  unfolding typedefs symbol_type_valid bytes_eq
  typedefs-IsExtracted whole underlying [] = tt
  typedefs-IsExtracted whole underlying (n ∷ ns) =
      elim (Bool-cases
        (is_same t src n underlying || t.kind n == txt "comment" || is_empty (name_of t src n))) [
          | inl e ↦ rw e (typedefs-IsExtracted whole underlying ns)
          | inr e ↦ rw e (
              All-append (IsExtracted t src) _ _
                (as_list-IsExtracted t src _ (named-IsExtracted whole _ symbol_typedef _ refl refl))
                (typedefs-IsExtracted whole underlying ns))
        ]
