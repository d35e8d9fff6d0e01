-- ===== src/Parser/Clang/Laws/Walks.antt =====
-- internal/ast/parser/clang.go: the symbols of a whole file.
use mathlib.Core.WellFounded.{Acc}
use dotfs_mcp_server.Base.{
  ◌≡◌, refl, arith, inl, inr, Bool, true, false, ◌||◌, Option, none, some, List, [], ◌∷◌, map, Text,
  txt, ◌==◌, bytes_eq, All, All-append, Bool-cases, Result, ok, err, Error, Ensures, if◌then◌else◌,
}
use dotfs_mcp_server.Parser.{Symbol}
use dotfs_mcp_server.Parser.Clang.{Tree}
use dotfs_mcp_server.Parser.Clang.Declarations.{
  c_prototype, c_object_macro, c_function_macro, c_record, c_enum, c_typedefs,
}
use dotfs_mcp_server.Parser.Clang.Walk.{
  listed, joined_lists, visit, walk, CLibrary, walked, within_limit, unless_ended, parse_c,
}
use dotfs_mcp_server.Parser.Clang.Laws.{IsExtracted, as_list-IsExtracted}
use dotfs_mcp_server.Parser.Clang.Laws.Nodes.{
  c_function_definition-IsExtracted, declared_by-IsExtracted, object_macro_of-IsExtracted,
  function_macro_of-IsExtracted, record_of-IsExtracted, enum_of-IsExtracted, typedefs-IsExtracted,
}

-- The symbols of a parse; a nil slice has none.
abbrev pub AllExtracted : Tree → Text → Option (List Symbol) → Type 0
AllExtracted t src none = Unit
AllExtracted t src (some syms) = All (IsExtracted t src) syms

joined_lists-All {ℓ} :
    {A : Type ℓ} (P : Symbol → Type 0) (f : A → List Symbol) (xs : List A)
    → ((x : A) → All P (f x))
    → All P (joined_lists (map f xs))
unfolding joined_lists
joined_lists-All P f [] h = tt
joined_lists-All P f (x ∷ xs) h = All-append P (f x) _ (h x) (joined_lists-All P f xs h)

module _ (t : Tree) (src : Text) where
  -- What the visitor gives for a node
  abbrev Visited : List Symbol × Bool → Type 0
  Visited v = All (IsExtracted t src) v.0

  either :
      (b : Bool) (x y : List Symbol × Bool)
      → (b ≡ true → Visited x)
      → Visited y
      → Visited (if b then x else y)
  either true x y h k = h refl
  either false x y h k = k

  visit-IsExtracted : (n : t.Node) → All (IsExtracted t src) (visit t src n).0
  unfolding visit c_prototype c_object_macro c_function_macro c_record c_enum c_typedefs
  visit-IsExtracted n =
      either (t.kind n == txt "function_definition") _ _
        (λ e. as_list-IsExtracted t src _ (c_function_definition-IsExtracted t src n))
        (either (t.kind n == txt "preproc_def") _ _
          (λ e. as_list-IsExtracted t src _ (object_macro_of-IsExtracted t src n _))
          (either (t.kind n == txt "preproc_function_def") _ _
            (λ e. as_list-IsExtracted t src _ (function_macro_of-IsExtracted t src n _))
            (either (t.kind n == txt "struct_specifier" || t.kind n == txt "union_specifier") _ _
              (λ e. as_list-IsExtracted t src _ (record_of-IsExtracted t src n _ _))
              (either (t.kind n == txt "enum_specifier") _ _
                (λ e. enum_of-IsExtracted t src n _ (same_kind e) refl)
                (either (t.kind n == txt "type_definition") _ _
                  (λ e. typedefs-IsExtracted t src n _ _)
                  (either (t.kind n == txt "declaration") _ ([], true)
                    (λ e. as_list-IsExtracted t src _ (declared_by-IsExtracted t src n _)) tt))))))
    where
      same_kind : (t.kind n == txt "enum_specifier") ≡ true → t.kind n ≡ txt "enum_specifier"
      same_kind e = ground (arith, e)

  walk-IsExtracted : (n : t.Node) (w : Acc t.IsChild n) → All (IsExtracted t src) (walk t src n w)
  unfolding walk
  walk-IsExtracted n (Acc.intro _ smaller) = elim (Bool-cases (visit t src n).1) [
    | inl e ↦ rw e (
        All-append (IsExtracted t src) _ _ (visit-IsExtracted n) (
          joined_lists-All (IsExtracted t src) _ (t.named_children n)
            (λ p. walk-IsExtracted p.0 (smaller p.0 p.1))))
    | inr e ↦ rw e (visit-IsExtracted n)
  ]

listed-AllExtracted :
    (t : Tree) (src : Text) (syms : List Symbol)
    → All (IsExtracted t src) syms
    → AllExtracted t src (listed syms)
listed-AllExtracted t src [] h = tt
listed-AllExtracted t src (s ∷ ss) h = h

module _ (lib : CLibrary) where
  walked-AllExtracted :
      (src : Text) (r : Result lib.tree.Node)
      → Ensures (AllExtracted lib.tree src) (walked lib src r)
  walked-AllExtracted src (err e) = tt
  walked-AllExtracted src (ok root) =
      listed-AllExtracted lib.tree src _
        (walk-IsExtracted lib.tree src root (lib.tree.downwards root))

  within_limit-AllExtracted :
      (src : Text) (b : Bool) → Ensures (AllExtracted lib.tree src) (within_limit lib src b)
  within_limit-AllExtracted src true = tt
  within_limit-AllExtracted src false = walked-AllExtracted src _

  unless_ended-AllExtracted :
      (src : Text) (o : Option Error) → Ensures (AllExtracted lib.tree src) (unless_ended lib src o)
  unless_ended-AllExtracted src (some e) = tt
  unless_ended-AllExtracted src none = within_limit-AllExtracted src _

  -- Whatever tree the parser of C makes of a file, every symbol that the C engine extracts has a
  -- range of bytes that is not empty, lies inside the file and does not end in white space, and
  -- lines that are counted from one and in order. Its code is the bytes of that range, unless it is a
  -- constant: that has the range of an enumerator in the body of an enum, and the bytes of the whole
  -- enum as its code, or none if the enum has no range of its own in the file. Its language is C and
  -- its kind one of the ten.
  pub parse_c-AllExtracted :
      (ctx : Option Error) (path src : Text)
      → Ensures (AllExtracted lib.tree src) (parse_c lib ctx path src)
  unfolding parse_c
  parse_c-AllExtracted ctx path src = unless_ended-AllExtracted src ctx
