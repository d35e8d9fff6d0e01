-- ===== src/Parser/Golang/Declared.antt =====
-- internal/ast/parser/golang.go: what a symbol of a Go file is.
use dotfs_mcp_server.Base.{
  ◌≡◌, has_prefix, ◌≤◌, ◌<◌, refl, ◌⊎◌, inl, inr, true, false, ◌||◌, Option, none, some, [], ◌∷◌,
  ◌++◌, Text, txt, bytes_eq, is_empty, length, ltb, leb, ℤ, pos, negsuc, ap, sym, Bool-cases, arith,
}
use dotfs_mcp_server.Ast.{symbol_type_valid, symbol_method, symbol_constant, language_go}
use dotfs_mcp_server.Parser.{Symbol}
use dotfs_mcp_server.Parser.Golang.{
  Pos, FuncDecl, GenDecl, Decl, func_decl, gen_decl, type_token, GoDecl, Span, span_of, span, slice,
  with_receiver, receiver_name, spanned_function, named_function,
}

-- The code of a type: its bytes if they begin with the keyword, and else with the keyword in front
abbrev pub IsTypeCode : Text → Text → Type 0
IsTypeCode own code =
    ((has_prefix (txt "type ") own ≡ true) × (code ≡ own))
    ⊎ ((has_prefix (txt "type ") own ≡ false) × (code ≡ txt "type " ++ own))

-- The code of a symbol that the declaration `d` of a file gives, with the range `r` and a kind: a
-- function or a method has the bytes of its declaration, which are its range; a type has those of
-- its range, with the keyword; a constant or a variable has the bytes of the whole declaration.
pub data IsCode (g : GoDecl) (d : Decl) (r : Span) (kind code : Text) : Type 0 where
  of_function :
      {fn : FuncDecl}
      → d ≡ func_decl fn
      → span g fn.start fn.stop ≡ some r
      → code ≡ slice g.src r
      → IsCode g d r kind code
  of_type :
      {decl : GenDecl}
      → d ≡ gen_decl decl
      → decl.tok ≡ type_token
      → IsTypeCode (slice g.src r) code
      → IsCode g d r kind code
  of_value :
      {decl : GenDecl} {block : Span}
      → d ≡ gen_decl decl
      → kind ≡ symbol_constant
      → span g decl.start decl.stop ≡ some block
      → code ≡ slice g.src block
      → IsCode g d r kind code

abbrev pub IsInside : Text → Span → Type 0
IsInside src r = (r.start < r.stop) × (r.stop ≤ length src)

-- A symbol of a Go file: its range is not empty and inside the file, its kind is one of the ten, and
-- it has another name just if it is a method, which is then found under its receiver too.
pub record IsDeclared (g : GoDecl) (d : Decl) (sym : Symbol) : Type 0 where
  pub range :
      (r : Span) × IsInside g.src r
      × (sym.start_byte ≡ pos r.start)
      × (sym.end_byte ≡ pos r.stop)
      × IsCode g d r sym.symbol_type sym.source_code
  pub go : sym.language ≡ language_go
  pub kind : symbol_type_valid sym.symbol_type ≡ true
  pub others :
      (sym.aliases ≡ [])
      ⊎ ((sym.symbol_type ≡ symbol_method)
          × (sym.aliases ≡ (sym.parent_scope ++ txt "." ++ sym.name) ∷ []))

abbrev pub SpanInside : Text → Option Span → Type 0
SpanInside src none = Unit
SpanInside src (some r) = IsInside src r

span_of-IsInside : (src : Text) (s e l m : ℤ) → SpanInside src (span_of src s e l m)
span_of-IsInside src (negsuc s) e l m = tt
span_of-IsInside src (pos s) (negsuc e) l m = tt
span_of-IsInside src (pos s) (pos e) l m = elim (Bool-cases (ltb (length src) e || leb e s)) [
  | inl h ↦ rw h tt
  | inr h ↦ rw h (ground (arith, h))
]

pub span-IsInside : (g : GoDecl) (from to : Pos) → SpanInside g.src (span g from to)
unfolding span
span-IsInside g from to = span_of-IsInside g.src _ _ _ _

module _ (g : GoDecl) (d : Decl) where
  abbrev pub Pushed : Option Symbol → Type 0
  Pushed none = Unit
  Pushed (some sym) = IsDeclared g d sym

  with_receiver-IsDeclared :
      (recv : Text) (sym : Symbol) (fn : FuncDecl) (r : Span)
      → IsInside g.src r
      → d ≡ func_decl fn
      → span g fn.start fn.stop ≡ some r
      → sym.start_byte ≡ pos r.start
      → sym.end_byte ≡ pos r.stop
      → sym.source_code ≡ slice g.src r
      → sym.language ≡ language_go
      → symbol_type_valid sym.symbol_type ≡ true
      → sym.aliases ≡ []
      → IsDeclared g d (with_receiver recv sym)
  unfolding with_receiver symbol_type_valid bytes_eq
  with_receiver-IsDeclared recv sym fn r inside is at s e code go kind plain =
      elim (Bool-cases (is_empty recv)) [
        | inl h ↦ rw h (record {
          range = (r, inside, s, e, of_function is at code);
          go = go;
          kind = kind;
          others = inl plain;
        })
        | inr h ↦ rw h (record {
          range = (r, inside, s, e, of_function is at code);
          go = go;
          kind = refl;
          others = inr (refl, ap (λ names. names ++ (recv ++ txt "." ++ sym.name) ∷ []) plain);
        })
      ]

  spanned_function-IsDeclared :
      (fn : FuncDecl) (name : Text) (o : Option Span)
      → d ≡ func_decl fn
      → span g fn.start fn.stop ≡ o
      → SpanInside g.src o
      → Pushed (spanned_function g fn name o)
  unfolding symbol_type_valid bytes_eq
  spanned_function-IsDeclared fn name none is at h = tt
  spanned_function-IsDeclared fn name (some r) is at h =
      with_receiver-IsDeclared (receiver_name fn.recv) _ fn r h is at refl refl refl refl refl refl

  pub named_function-IsDeclared :
      (fn : FuncDecl) (o : Option Text) → d ≡ func_decl fn → Pushed (named_function g fn o)
  named_function-IsDeclared fn none is = tt
  named_function-IsDeclared fn (some name) is =
      spanned_function-IsDeclared fn name _ is refl (span-IsInside g fn.start fn.stop)

  pub typed-IsDeclared :
      (decl : GenDecl) (r : Span) (s : Symbol)
      → d ≡ gen_decl decl
      → decl.tok ≡ type_token
      → IsInside g.src r
      → s.start_byte ≡ pos r.start
      → s.end_byte ≡ pos r.stop
      → IsTypeCode (slice g.src r) s.source_code
      → s.language ≡ language_go
      → s.aliases ≡ []
      → symbol_type_valid s.symbol_type ≡ true
      → IsDeclared g d s
  typed-IsDeclared decl r s is tok inside from to code go plain kind = record {
    range = (r, inside, from, to, of_type is tok code);
    go = go;
    kind = kind;
    others = inl plain;
  }
