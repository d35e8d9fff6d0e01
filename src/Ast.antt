-- ===== src/Ast.antt =====
-- internal/ast/model.go: the record that is cached for one declaration.
pub mod Fingerprint
use dotfs_mcp_server.Base.{
  ℕ, ◌≡◌, Bool, true, false, not, ◌&&◌, ◌||◌, List, [], ◌∷◌, ◌++◌, Text, txt, ◌==◌, bytes_eq,
  contains, to_lower, trim_space, less, sort, ℤ, pos, ltz, Result, ok, err, Error, message,
  sentinel, unsupported_language, ◌>>=◌, ◌>>◌, reject_if, if◌then◌else◌, refl, is_empty,
}

abbrev pub SymbolType : Type 0
SymbolType = Text

abbrev pub Language : Type 0
Language = Text

abbrev pub symbol_function : SymbolType
symbol_function = txt "function"

abbrev pub symbol_method : SymbolType
symbol_method = txt "method"

abbrev pub symbol_struct : SymbolType
symbol_struct = txt "struct"

abbrev pub symbol_interface : SymbolType
symbol_interface = txt "interface"

abbrev pub symbol_macro : SymbolType
symbol_macro = txt "macro"

abbrev pub symbol_macro_function : SymbolType
symbol_macro_function = txt "macro_function"

abbrev pub symbol_enum : SymbolType
symbol_enum = txt "enum"

abbrev pub symbol_typedef : SymbolType
symbol_typedef = txt "typedef"

abbrev pub symbol_constant : SymbolType
symbol_constant = txt "constant"

abbrev pub symbol_type_alias : SymbolType
symbol_type_alias = txt "type_alias"

abbrev pub symbol_type_set : List SymbolType
symbol_type_set =
    symbol_function ∷ symbol_method ∷ symbol_struct ∷ symbol_interface ∷ symbol_macro
    ∷ symbol_macro_function ∷ symbol_enum ∷ symbol_typedef ∷ symbol_constant ∷ symbol_type_alias
    ∷ []

abbrev pub callable_types : List SymbolType
callable_types = symbol_function ∷ symbol_method ∷ []

abbrev pub type_definition_types : List SymbolType
type_definition_types =
    symbol_struct ∷ symbol_interface ∷ symbol_typedef ∷ symbol_type_alias ∷ symbol_enum ∷ []

abbrev pub macro_const_types : List SymbolType
macro_const_types = symbol_macro ∷ symbol_macro_function ∷ symbol_constant ∷ symbol_enum ∷ []

-- `SymbolType.Valid`
unfoldable pub symbol_type_valid : SymbolType → Bool
symbol_type_valid t = contains symbol_type_set t

-- `SymbolTypes`: the map's keys, sorted.
unfoldable pub symbol_types : List SymbolType
unfolding sort less
symbol_types = sort less symbol_type_set

-- `ParseSymbolType`
unfoldable pub parse_symbol_type : Text → Result SymbolType
unfolding symbol_type_valid
parse_symbol_type raw =
    let t = to_lower (trim_space raw) in
    if symbol_type_valid t then ok t else err (message (txt "unsupported symbol_type"))

abbrev pub language_c : Language
language_c = txt "c"

abbrev pub language_go : Language
language_go = txt "go"

-- `Language.Valid`
unfoldable pub language_valid : Language → Bool
language_valid l = l == language_c || l == language_go

pub record SymbolRecord : Type 0 where
  pub repo_name : Text
  pub file_path : Text
  pub language : Language
  pub symbol_type : SymbolType
  pub name : Text
  pub aliases : List Text
  pub parent_scope : Text
  pub start_byte : ℤ
  pub end_byte : ℤ
  pub start_line : ℤ
  pub end_line : ℤ
  pub documentation : Text
  pub signature : Text
  pub source_code : Text

-- `strings.TrimSpace(s) == ""`
unfoldable pub blank : Text → Bool
blank s = is_empty (trim_space s)

-- `SymbolRecord.Validate`
unfoldable pub validate : SymbolRecord → Result (Unit {0})
unfolding language_valid symbol_type_valid blank
validate r = do
  reject_if (blank r.repo_name) (message (txt "record is missing repo_name"))
  reject_if (blank r.file_path) (message (txt "record is missing file_path"))
  reject_if (blank r.name) (message (txt "record is missing name"))
  reject_if (not (language_valid r.language)) (sentinel unsupported_language)
  reject_if (not (symbol_type_valid r.symbol_type))
      (message (txt "record has unsupported symbol_type"))
  reject_if (blank r.source_code) (message (txt "record is missing source_code"))
  reject_if (ltz r.start_byte (pos 0) || ltz r.end_byte r.start_byte)
      (message (txt "record has an inverted byte range"))
  reject_if (not (ltz (pos 0) r.start_line) || ltz r.end_line r.start_line)
      (message (txt "record has an inverted line range"))
  ok tt
