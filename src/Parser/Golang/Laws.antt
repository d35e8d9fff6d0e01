-- ===== src/Parser/Golang/Laws.antt =====
-- internal/ast/parser/golang.go: what the Go engine extracts from a file.
use dotfs_mcp_server.Base.{
  ℕ, suc, ◌≡◌, refl, inl, inr, Option, none, some, List, [], ◌∷◌, Text, txt, bytes_eq, Any, All,
  All-append, Result, ok, err, Error, wrapped, Ensures,
}
use dotfs_mcp_server.Parser.{Symbol}
use dotfs_mcp_server.Parser.Golang.{Decl, GoDecl}
use dotfs_mcp_server.Parser.Golang.Types.{}
use dotfs_mcp_server.Parser.Golang.Values.{}
use dotfs_mcp_server.Parser.Golang.Engine.{
  GoFile, GoLibrary, declared, unless_done, append_to, parse_decls, parse_parsed, nil_if_empty,
  parse,
}
use dotfs_mcp_server.Parser.Golang.Declared.{IsDeclared}
use dotfs_mcp_server.Parser.Golang.Symbols.{declared-IsDeclared}

module _ (lib : GoLibrary) where
  -- A symbol that one of the declarations gives
  abbrev pub IsDeclaredIn : GoDecl → List Decl → Symbol → Type 0
  IsDeclaredIn g ds sym = (d : Decl) × Any (λ x. x ≡ d) ds × IsDeclared g d sym

  here-IsDeclaredIn :
      (g : GoDecl) (d : Decl) (ds : List Decl) (syms : List Symbol)
      → All (IsDeclared g d) syms
      → All (IsDeclaredIn g (d ∷ ds)) syms
  here-IsDeclaredIn g d ds [] h = tt
  here-IsDeclaredIn g d ds (s ∷ ss) h = ((d, inl refl, h.0), here-IsDeclaredIn g d ds ss h.1)

  later-IsDeclaredIn :
      (g : GoDecl) (d : Decl) (ds : List Decl) (syms : List Symbol)
      → All (IsDeclaredIn g ds) syms
      → All (IsDeclaredIn g (d ∷ ds)) syms
  later-IsDeclaredIn g d ds [] h = tt
  later-IsDeclaredIn g d ds (s ∷ ss) ((by, is, at), more) =
      ((by, inr is, at), later-IsDeclaredIn g d ds ss more)

  module _ (g : GoDecl) where
    append_to-IsDeclared :
        (d : Decl) (ds : List Decl) (rest : Result (List Symbol))
        → Ensures (All (IsDeclaredIn g ds)) rest
        → Ensures (All (IsDeclaredIn g (d ∷ ds))) (append_to lib (declared lib g d) rest)
    append_to-IsDeclared d ds (err e) more = tt
    append_to-IsDeclared d ds (ok rest) more =
        All-append (IsDeclaredIn g (d ∷ ds)) (declared lib g d) rest
          (here-IsDeclaredIn g d ds _ (declared-IsDeclared lib g d))
          (later-IsDeclaredIn g d ds rest more)

    unless_done-Ensures :
        (P : List Symbol → Type 0) (o : Option Error) (rest : Result (List Symbol))
        → Ensures P rest
        → Ensures P (unless_done lib o rest)
    unless_done-Ensures P none rest h = h
    unless_done-Ensures P (some e) rest h = tt

    parse_decls-IsDeclared :
        (ctx : ℕ → Option Error) (n : ℕ) (ds : List Decl)
        → Ensures (All (IsDeclaredIn g ds)) (parse_decls lib ctx g n ds)
    unfolding parse_decls
    parse_decls-IsDeclared ctx n [] = tt
    parse_decls-IsDeclared ctx n (d ∷ ds) =
        unless_done-Ensures (All (IsDeclaredIn g (d ∷ ds))) (ctx n) _
          (append_to-IsDeclared d ds _ (parse_decls-IsDeclared ctx (suc n) ds))

  -- What the parser of Go made of a file, and symbols that its declarations give
  abbrev pub DeclaredBy : Text → Text → List Symbol → Type 0
  DeclaredBy path src syms =
      (file : GoFile) × (lib.parse_file path src ≡ ok file)
      × All (IsDeclaredIn (record { position = file.position; src = src }) file.decls) syms

  -- The symbols of a parse; a nil slice has none.
  abbrev pub AllDeclared : Text → Text → Option (List Symbol) → Type 0
  AllDeclared path src none = Unit
  AllDeclared path src (some syms) = DeclaredBy path src syms

  nil_if_empty-AllDeclared :
      (path src : Text) (r : Result (List Symbol))
      → Ensures (DeclaredBy path src) r
      → Ensures (AllDeclared path src) (nil_if_empty lib r)
  nil_if_empty-AllDeclared path src (err e) h = tt
  nil_if_empty-AllDeclared path src (ok []) h = tt
  nil_if_empty-AllDeclared path src (ok (s ∷ ss)) h = h

  with_file :
      (path src : Text) (file : GoFile) (r : Result (List Symbol))
      → lib.parse_file path src ≡ ok file
      → Ensures (All (IsDeclaredIn (record { position = file.position; src = src }) file.decls)) r
      → Ensures (DeclaredBy path src) r
  with_file path src file (err e) is h = tt
  with_file path src file (ok syms) is h = (file, is, h)

  parse_parsed-IsDeclared :
      (ctx : ℕ → Option Error) (path src : Text) (r : Result GoFile)
      → lib.parse_file path src ≡ r
      → Ensures (DeclaredBy path src) (parse_parsed lib ctx src (wrapped (txt "parse go file") r))
  parse_parsed-IsDeclared ctx path src (err e) is = tt
  parse_parsed-IsDeclared ctx path src (ok file) is =
      with_file path src file _ is
        (parse_decls-IsDeclared (record { position = file.position; src = src }) ctx 1 file.decls)

  -- Whatever the parser of Go makes of a file, every symbol that the Go engine extracts stems from a
  -- declaration of the parsed file, and its range of bytes is not empty and lies inside the file. The
  -- code of a function or a method is the bytes of its declaration, which are its range; that of a
  -- type the bytes of its range, with "type " in front just when they do not begin with it; that of a
  -- constant or a variable the bytes of the whole declaration that holds it. The language is Go and
  -- the kind one of the ten; and a symbol has no other name, but for a method, which may be found
  -- under its receiver's name with a dot too.
  pub parse-AllDeclared :
      (ctx : ℕ → Option Error) (path src : Text)
      → Ensures (AllDeclared path src) (parse lib ctx path src)
  unfolding parse
  parse-AllDeclared ctx path src =
      nil_if_empty-AllDeclared path src _
        (done (ctx 0) _ (parse_parsed-IsDeclared ctx path src (lib.parse_file path src) refl))
    where
      done :
          (o : Option Error) (rest : Result (List Symbol))
          → Ensures (DeclaredBy path src) rest
          → Ensures (DeclaredBy path src) (unless_done lib o rest)
      done none rest h = h
      done (some e) rest h = tt
