-- ===== src/Tests/Trees.antt =====
-- A run of internal/ast/parser/clang.go on the trees of a file with one function and of one
-- with an enum.
use dotfs_mcp_server.Base.{
  ℕ, zero, suc, ◌<◌, ◌≡◌, refl, Option, none, some, List, [], ◌∷◌, Text, txt, ◌==◌, bytes_eq,
  nat_eq, lt_acc, map, Result, ok, err, Ensures, arith, if◌then◌else◌,
}
use dotfs_mcp_server.Parser.{Symbol}
use dotfs_mcp_server.Parser.Clang.{Tree}
use dotfs_mcp_server.Parser.Clang.Walk.{CLibrary, parse_c}
use dotfs_mcp_server.Parser.Clang.Laws.Walks.{AllExtracted, parse_c-AllExtracted}

abbrev c_source : Text
c_source = txt "int add() {} "

-- The name, the function and the file, by their numbers
abbrev kind_of : ℕ → Text
kind_of zero = txt "identifier"
kind_of (suc zero) = txt "function_definition"
kind_of (suc (suc n)) = txt "translation_unit"

abbrev children_at : (n : ℕ) → List ((c : ℕ) × (c < n))
children_at zero = []
children_at (suc n) = (n, omega arith) ∷ []

abbrev field_at : (n : ℕ) → Text → Option ((c : ℕ) × (c < n))
field_at (suc zero) key = if key == txt "declarator" then some (zero, omega arith) else none
field_at zero key = none
field_at (suc (suc n)) key = none

abbrev parent_of : ℕ → Option ℕ
parent_of zero = some 1
parent_of (suc zero) = some 2
parent_of (suc (suc n)) = none

abbrev add_tree : Tree
add_tree = record {
  Node = ℕ;
  IsChild = ◌<◌;
  IsBefore = ◌<◌;
  kind = kind_of;
  start_byte = λ n. 0;
  end_byte = λ n. 13;
  start_row = λ n. 0;
  content = λ n src. txt "add";
  same = λ n m. n == m;
  field = field_at;
  named_children = children_at;
  parent = parent_of;
  prev_sibling = λ n. none;
  downwards = lt_acc;
  leftwards = lt_acc;
}

abbrev c_library : CLibrary
c_library = record { tree = add_tree; parse_tree = λ src. ok 2 }

abbrev names_of : Result (Option (List Symbol)) → List (Text × Text)
names_of (err e) = []
names_of (ok none) = []
names_of (ok (some syms)) = map (λ (s : Symbol). (s.name, s.source_code)) syms

-- The blank at the end is trimmed.
parse_c_run :
    names_of (parse_c c_library none (txt "a.c") c_source) ≡ (txt "add", txt "int add() {}") ∷ []
unfolding parse_c lt_acc
parse_c_run = refl

-- The name of a constant, the constant, the body of its enum, the enum and the file
abbrev enum_source : Text
enum_source = txt "enum { A };"

abbrev enum_kind_of : ℕ → Text
enum_kind_of zero = txt "identifier"
enum_kind_of (suc zero) = txt "enumerator"
enum_kind_of (suc (suc zero)) = txt "enumerator_list"
enum_kind_of (suc (suc (suc zero))) = txt "enum_specifier"
enum_kind_of (suc (suc (suc (suc n)))) = txt "translation_unit"

abbrev enum_field_at : (n : ℕ) → Text → Option ((c : ℕ) × (c < n))
enum_field_at zero key = none
enum_field_at (suc zero) key = if key == txt "name" then some (zero, omega arith) else none
enum_field_at (suc (suc zero)) key = none
enum_field_at (suc (suc (suc zero))) key = if key == txt "body" then some (2, omega arith) else none
enum_field_at (suc (suc (suc (suc n)))) key = none

abbrev start_of : ℕ → ℕ
start_of zero = 7
start_of (suc zero) = 7
start_of (suc (suc zero)) = 5
start_of (suc (suc (suc n))) = 0

abbrev end_of : ℕ → ℕ
end_of zero = 8
end_of (suc zero) = 8
end_of (suc (suc zero)) = 10
end_of (suc (suc (suc zero))) = 10
end_of (suc (suc (suc (suc n)))) = 11

abbrev enum_tree : Tree
enum_tree = record add_tree {
  kind = enum_kind_of;
  start_byte = start_of;
  end_byte = end_of;
  content = λ n src. txt "A";
  field = enum_field_at;
  parent = λ n. none;
}

abbrev enum_library : CLibrary
enum_library = record { tree = enum_tree; parse_tree = λ src. ok 4 }

-- A constant carries the block of its enum.
enum_run :
    names_of (parse_c enum_library none (txt "a.h") enum_source) ≡ (txt "A", txt "enum { A }") ∷ []
unfolding parse_c lt_acc
enum_run = refl

parse_c-AllExtracted_example :
    Ensures (AllExtracted enum_tree enum_source) (parse_c enum_library none (txt "a.h") enum_source)
parse_c-AllExtracted_example = parse_c-AllExtracted enum_library none (txt "a.h") enum_source
