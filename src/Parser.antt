-- ===== src/Parser.antt =====
-- internal/ast/parser/parser.go: the symbols that an engine extracts, the registry of the engines,
-- and the text helpers. The registry takes its engines as they come.
pub mod Golang
pub mod Clang
use dotfs_mcp_server.Base.{
  ◌≡◌, refl, Bool, true, false, List, [], ◌∷◌, ◌++◌, map, Text, txt, bytes_eq, has_prefix,
  trim_prefix, trim_suffix, trim_space, to_lower, split, join, cut, less, sort, is_empty, Option,
  none, some, Dict, lookup, insert, Result, ℤ, if◌then◌else◌,
}
use mathlib.Core.List.{reverse}
use dotfs_mcp_server.Ast.{SymbolType, Language, blank}
use dotfs_mcp_server.Utils.Paths.{ext}

-- `Symbol`
pub record Symbol : Type 0 where
  pub name : Text
  pub aliases : List Text
  pub symbol_type : SymbolType
  pub parent_scope : Text
  pub signature : Text
  pub documentation : Text
  pub source_code : Text
  pub language : Language
  pub start_byte : ℤ
  pub end_byte : ℤ
  pub start_line : ℤ
  pub end_line : ℤ

-- `Engine`; `parse` gives no list for a nil slice
pub record Engine : Type 0 where
  pub language : Language
  pub extensions : List Text
  pub parse : Text → Text → Result (Option (List Symbol))
  pub prefilter : Text → Bool

-- `Registry`
abbrev pub Registry : Type 0
Registry = Dict Text Engine

unfoldable pub register_all : Engine → List Text → Registry → Registry
unfolding to_lower
register_all e [] r = r
register_all e (x ∷ xs) r = register_all e xs (insert (to_lower x) e r)

unfoldable pub register_engines : List Engine → Registry → Registry
unfolding register_all
register_engines [] r = r
register_engines (e ∷ es) r = register_engines es (register_all e e.extensions r)

-- `NewRegistry`
unfoldable pub new_registry : List Engine → Registry
unfolding register_engines
new_registry engines = register_engines engines []

-- `For`
unfoldable pub engine_for : Registry → Text → Option Engine
unfolding to_lower ext
engine_for r path = lookup (to_lower (ext path)) r

-- `Supports`
unfoldable pub supports : Registry → Text → Bool
supports r path = elim (engine_for r path) [ none ↦ false | some _ ↦ true ]

-- The keys of the map.
abbrev keys_of : Registry → List Text
keys_of [] = []
keys_of ((x, e) ∷ r) = x ∷ keys_of r

-- `Extensions`
unfoldable pub extensions : Registry → List Text
unfolding sort less
extensions r = sort less (keys_of r)

-- The case of `cleanComment` for one line.
unfoldable pub clean_line : Text → Text
unfolding has_prefix trim_prefix trim_space
clean_line raw =
    let line = trim_space raw in
    trim_space (
      if has_prefix (txt "///") line
      then trim_prefix (txt "///") line
      else if has_prefix (txt "//") line
      then trim_prefix (txt "//") line
      else if has_prefix (txt "*/") line
      then trim_prefix (txt "*/") line
      else if has_prefix (txt "*") line
      then trim_prefix (txt "*") line
      else line)

unfoldable pub drop_blank : List Text → List Text
drop_blank [] = []
drop_blank (l ∷ ls) = let rest = drop_blank ls in if is_empty l then rest else l ∷ ls

-- `cleanComment`
unfoldable pub clean_comment : Text → Text
unfolding clean_line drop_blank split join trim_suffix
clean_comment text =
    let raw = trim_space text in
    let body =
      if has_prefix (txt "/*") raw
      then trim_suffix (txt "*/") (trim_prefix (txt "/*") raw)
      else raw in
    if is_empty raw
    then []
    else join (b'\n' ∷ [])
        (reverse (drop_blank (reverse (drop_blank (map clean_line (split b'\n' body))))))

abbrev before_cut : Text → Option (Text × Text) → Text
before_cut s none = s
before_cut s (some (line, _)) = line

-- `firstLine`
unfoldable pub first_line : Text → Text
unfolding trim_space trim_suffix cut
first_line src =
    trim_space (
      trim_suffix (txt "{") (trim_space (before_cut (trim_space src) (cut b'\n' (trim_space src)))))

-- `appendSection`
unfoldable pub append_section : Text → Text → List Text → Text
unfolding join blank
append_section doc title entries =
    let section = title ++ txt ": " ++ join (txt ", ") entries in
    if is_empty entries
    then doc
    else if blank doc
    then section
    else doc ++ (b'\n' ∷ b'\n' ∷ section)

clean_comment_test :
    clean_comment (txt "/**" ++ (b'\n' ∷ txt " * Adds two numbers." ++ (b'\n' ∷ txt " */")))
    ≡ txt "Adds two numbers."
unfolding clean_comment bytes_eq
clean_comment_test = refl

first_line_test : first_line (txt "int main(void) {" ++ (b'\n' ∷ txt "}")) ≡ txt "int main(void)"
unfolding first_line bytes_eq
first_line_test = refl
