-- ===== src/Parser/Golang/Symbols.antt =====
-- internal/ast/parser/golang.go: the symbols of one declaration of a Go file.
use dotfs_mcp_server.Base.{
  ℕ, suc, ◌≡◌, refl, inl, inr, Option, none, some, List, [], ◌∷◌, ◌++◌, Text, txt, bytes_eq,
  has_prefix, pos, All, All-append, ap, Bool-cases, if◌then◌else◌,
}
use dotfs_mcp_server.Ast.{symbol_type_valid, symbol_type_alias, symbol_typedef, language_go}
use dotfs_mcp_server.Parser.{Symbol}
use dotfs_mcp_server.Parser.Golang.{
  Pos, TypeExpr, struct_type, interface_type, other_type, TypeSpec, ValueSpec, Spec, type_spec,
  value_spec, import_spec, Token, type_token, const_token, var_token, import_token, GenDecl, Decl,
  func_decl, gen_decl, bad_decl, GoDecl, Span, span, slice, is_valid, named_function, function,
}
use dotfs_mcp_server.Parser.Golang.Types.{
  with_type, with_keyword, spanned_type, named_type, push, type_specs,
}
use dotfs_mcp_server.Parser.Golang.Values.{
  value_symbol, is_passed_over, value_names, spanned_values, values_loop, in_block, value_specs,
}
use dotfs_mcp_server.Parser.Golang.Engine.{GoLibrary, generic_by, generic, declared}
use dotfs_mcp_server.Parser.Golang.Declared.{
  IsInside, IsDeclared, SpanInside, span-IsInside, Pushed, named_function-IsDeclared, IsTypeCode,
  of_value, typed-IsDeclared,
}

module _ (lib : GoLibrary) where
  with_keyword-IsTypeCode : (own : Text) → IsTypeCode own (with_keyword lib.unquote own)
  with_keyword-IsTypeCode own = elim (Bool-cases (has_prefix (txt "type ") own)) [
    | inl e ↦ inl (e, ap (λ b. if b then own else txt "type " ++ own) e)
    | inr e ↦ inr (e, ap (λ b. if b then own else txt "type " ++ own) e)
  ]

  module _ (g : GoDecl) (d : Decl) (decl : GenDecl) (is : d ≡ gen_decl decl) where
    with_type-IsDeclared :
        (name : Text) (assign : Pos) (t : TypeExpr) (s : Symbol) (r : Span)
        → decl.tok ≡ type_token
        → IsInside g.src r
        → s.start_byte ≡ pos r.start
        → s.end_byte ≡ pos r.stop
        → IsTypeCode (slice g.src r) s.source_code
        → s.language ≡ language_go
        → s.aliases ≡ []
        → IsDeclared g d (with_type lib.unquote name assign t s)
    unfolding with_type symbol_type_valid bytes_eq
    with_type-IsDeclared name assign (struct_type fields) s r tok inside from to code go plain =
        typed-IsDeclared g d decl r (with_type lib.unquote name assign (struct_type fields) s) is
          tok inside from to code go plain refl
    with_type-IsDeclared name assign (interface_type methods) s r tok inside from to code go plain =
        typed-IsDeclared g d decl r (with_type lib.unquote name assign (interface_type methods) s)
          is tok inside from to code go plain refl
    with_type-IsDeclared name assign (other_type rendered) s r tok inside from to code go plain =
        elim (Bool-cases (is_valid assign)) [
          | inl e ↦ rw e (
              typed-IsDeclared g d decl r
                (record s {
                  symbol_type = symbol_type_alias;
                  signature = txt "type " ++ name ++ txt " = " ++ rendered;
                })
                is tok inside from to code go plain refl)
          | inr e ↦ rw e (
              typed-IsDeclared g d decl r
                (record s {
                  symbol_type = symbol_typedef;
                  signature = txt "type " ++ name ++ txt " " ++ rendered;
                })
                is tok inside from to code go plain refl)
        ]

    named_type-IsDeclared :
        (ts : TypeSpec) (name : Option Text)
        → decl.tok ≡ type_token
        → Pushed g d (named_type lib.unquote g decl ts name)
    named_type-IsDeclared ts none tok = tt
    named_type-IsDeclared ts (some name) tok = spanned ts name _ tok (span-IsInside g _ ts.stop)
      where
        spanned :
            (ts : TypeSpec) (name : Text) (o : Option Span)
            → decl.tok ≡ type_token
            → SpanInside g.src o
            → Pushed g d (spanned_type lib.unquote g decl ts name o)
        spanned ts name none tok h = tt
        spanned ts name (some r) tok h =
            with_type-IsDeclared name ts.assign ts.type_expr _ r tok h refl refl
              (with_keyword-IsTypeCode (slice g.src r)) refl refl

  push-IsDeclared :
      (g : GoDecl) (d : Decl) (o : Option Symbol) (out : List Symbol)
      → Pushed g d o
      → All (IsDeclared g d) out
      → All (IsDeclared g d) (push lib.unquote o out)
  push-IsDeclared g d none out h all = all
  push-IsDeclared g d (some s) out h all = (h, all)

  module _ (g : GoDecl) (d : Decl) (decl : GenDecl) (is : d ≡ gen_decl decl) where
    type_specs-IsDeclared :
        (specs : List Spec)
        → decl.tok ≡ type_token
        → All (IsDeclared g d) (type_specs lib.unquote g decl specs)
    unfolding type_specs
    type_specs-IsDeclared [] tok = tt
    type_specs-IsDeclared (type_spec ts ∷ specs) tok =
        push-IsDeclared g d (named_type lib.unquote g decl ts ts.name) _
          (named_type-IsDeclared g d decl is ts ts.name tok) (type_specs-IsDeclared specs tok)
    type_specs-IsDeclared (value_spec vs ∷ specs) tok = type_specs-IsDeclared specs tok
    type_specs-IsDeclared (import_spec ∷ specs) tok = type_specs-IsDeclared specs tok

    module _ (block : Span) (at : span g decl.start decl.stop ≡ some block) where
      value_symbol-IsDeclared :
          (i : ℕ) (vs : ValueSpec) (r : Span) (name : Text)
          → IsInside g.src r
          → IsDeclared g d (value_symbol lib.is_exported g decl block i vs r name)
      unfolding symbol_type_valid bytes_eq
      value_symbol-IsDeclared i vs r name h = record {
        range = (r, h, refl, refl, of_value is refl at refl);
        go = refl;
        kind = refl;
        others = inl refl;
      }

      value_names-IsDeclared :
          (i : ℕ) (vs : ValueSpec) (r : Span) (names : List Text)
          → IsInside g.src r
          → All (IsDeclared g d) (value_names lib.is_exported g decl block i vs r names)
      unfolding value_names
      value_names-IsDeclared i vs r [] h = tt
      value_names-IsDeclared i vs r (name ∷ names) h =
          elim (Bool-cases (is_passed_over lib.is_exported g decl block name)) [
            | inl e ↦ rw e (value_names-IsDeclared i vs r names h)
            | inr e ↦
                rw e (value_symbol-IsDeclared i vs r name h, value_names-IsDeclared i vs r names h)
          ]

      spanned_values-IsDeclared :
          (i : ℕ) (vs : ValueSpec) (o : Option Span)
          → SpanInside g.src o
          → All (IsDeclared g d) (spanned_values lib.is_exported g decl block i vs o)
      spanned_values-IsDeclared i vs none h = tt
      spanned_values-IsDeclared i vs (some r) h = value_names-IsDeclared i vs r vs.names h

      values_loop-IsDeclared :
          (i : ℕ) (specs : List Spec)
          → All (IsDeclared g d) (values_loop lib.is_exported g decl block i specs)
      unfolding values_loop
      values_loop-IsDeclared i [] = tt
      values_loop-IsDeclared i (value_spec vs ∷ specs) =
          All-append (IsDeclared g d) _ _
            (spanned_values-IsDeclared i vs _ (span-IsInside g vs.start vs.stop))
            (values_loop-IsDeclared (suc i) specs)
      values_loop-IsDeclared i (type_spec ts ∷ specs) = values_loop-IsDeclared (suc i) specs
      values_loop-IsDeclared i (import_spec ∷ specs) = values_loop-IsDeclared (suc i) specs

    in_block-IsDeclared :
        (o : Option Span)
        → span g decl.start decl.stop ≡ o
        → All (IsDeclared g d) (in_block lib.is_exported g decl o)
    in_block-IsDeclared none at = tt
    in_block-IsDeclared (some block) at = values_loop-IsDeclared block at 0 decl.specs

    generic_by-IsDeclared :
        (tok : Token) → decl.tok ≡ tok → All (IsDeclared g d) (generic_by lib g decl tok)
    unfolding value_specs
    generic_by-IsDeclared type_token tok = type_specs-IsDeclared decl.specs tok
    generic_by-IsDeclared const_token tok = in_block-IsDeclared _ refl
    generic_by-IsDeclared var_token tok = in_block-IsDeclared _ refl
    generic_by-IsDeclared import_token tok = tt

  pub declared-IsDeclared : (g : GoDecl) (d : Decl) → All (IsDeclared g d) (declared lib g d)
  unfolding declared function generic
  declared-IsDeclared g (func_decl fn) =
      push-IsDeclared g (func_decl fn) (named_function g fn fn.name) []
        (named_function-IsDeclared g (func_decl fn) fn fn.name refl) tt
  declared-IsDeclared g (gen_decl decl) =
      generic_by-IsDeclared g (gen_decl decl) decl refl decl.tok refl
  declared-IsDeclared g bad_decl = tt
