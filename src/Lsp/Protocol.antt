-- ===== src/Lsp/Protocol.antt =====
-- internal/lsp/protocol.go: the payload types of the queries, and file URIs.
use dotfs_mcp_server.Base.{
  ℕ, zero, suc, ◌≡◌, refl, Bool, false, not, ◌&&◌, ◌||◌, ◌/◌, ◌%◌, ◌+◌, List, [], ◌∷◌, ◌++◌, map,
  Text, txt, ◌==◌, nat_eq, bytes_eq, ltb, split, join, has_prefix, to_lower, get_elem?, none, some,
  Result, ok, Error, message, sentinel, wrap, response, wrapped, reject_if, ◌>>=◌, ◌>>◌, ℤ, negsuc,
  eqz, if◌then◌else◌, contains,
}
use dotfs_mcp_server.Utils.Names.{is_alnum}

-- `Position`, zero-based
pub record Position : Type 0 where
  pub line : ℤ
  pub character : ℤ

pub record Range : Type 0 where
  pub start : Position
  pub stop : Position

pub record Location : Type 0 where
  pub uri : Text
  pub range : Range

pub record LocationLink : Type 0 where
  pub target_uri : Text
  pub target_range : Range
  pub target_selection_range : Range

-- `CallHierarchyItem` and `TypeHierarchyItem`, which have the same fields
pub record Item : Type 0 where
  pub name : Text
  pub kind : ℕ
  pub detail : Text
  pub uri : Text
  pub range : Range
  pub selection_range : Range
  pub data_json : Text

-- `CallHierarchyIncomingCall`
pub record IncomingCall : Type 0 where
  pub caller : Item
  pub from_ranges : List Range

-- `CallHierarchyOutgoingCall`
pub record OutgoingCall : Type 0 where
  pub callee : Item
  pub from_ranges : List Range

-- `TextDocumentPositionParams`
pub record PositionParams : Type 0 where
  pub document : Text
  pub position : Position

-- `symbolKindNames`, from 1 on
abbrev symbol_kind_names : List Text
symbol_kind_names =
    txt "file"
    ∷ txt "module"
    ∷ txt "namespace"
    ∷ txt "package"
    ∷ txt "class"
    ∷ txt "method"
    ∷ txt "property"
    ∷ txt "field"
    ∷ txt "constructor"
    ∷ txt "enum"
    ∷ txt "interface"
    ∷ txt "function"
    ∷ txt "variable"
    ∷ txt "constant"
    ∷ txt "string"
    ∷ txt "number"
    ∷ txt "boolean"
    ∷ txt "array"
    ∷ txt "object"
    ∷ txt "key"
    ∷ txt "null"
    ∷ txt "enum_member"
    ∷ txt "struct"
    ∷ txt "event"
    ∷ txt "operator"
    ∷ txt "type_parameter"
    ∷ []

-- `SymbolKind.String`
unfoldable pub kind_string : ℕ → Text
kind_string zero = txt "unknown"
kind_string (suc k) = elim (get_elem? symbol_kind_names k) [
  | some name ↦ name
  | none ↦ txt "unknown"
]

-- What `url.Parse` finds.
pub record Url : Type 0 where
  pub scheme : Text
  pub host : Text
  pub path : Text

-- The volume name behind the slash, as in "/C:/src".
unfoldable pub drop_volume_slash : Text → Text
unfolding nat_eq
drop_volume_slash (a ∷ b ∷ c ∷ p) = if a == b'/' && c == b':' then b ∷ c ∷ p else a ∷ b ∷ c ∷ p
drop_volume_slash p = p

-- `DocumentURI.Path`, on a parser of URLs
unfoldable pub uri_path : (Text → Result Url) → Text → Result Text
uri_path parse_url uri = do
  reject_if (uri == []) (message (txt "lsp: empty document URI"))
  parsed ← wrapped (txt "lsp: parse document URI") (parse_url uri)
  reject_if (not (parsed.scheme == txt "file")) (message (txt "lsp: unsupported URI scheme"))
  reject_if (not (parsed.host == []) && not (to_lower parsed.host == txt "localhost"))
      (message (txt "lsp: refusing remote URI"))
  reject_if (parsed.path == []) (message (txt "lsp: document URI has no path"))
  ok (drop_volume_slash parsed.path)

-- The bytes that `url.PathEscape` leaves as they are.
unfoldable pub is_unreserved : ℕ → Bool
unfolding is_alnum nat_eq
is_unreserved c =
    is_alnum c
    || contains (b'-' ∷ b'_' ∷ b'.' ∷ b'~' ∷ b'$' ∷ b'&' ∷ b'+' ∷ b':' ∷ b'=' ∷ b'@' ∷ []) c

unfoldable pub hex_digit : ℕ → ℕ
hex_digit d = if ltb d 10 then 48 + d else 55 + d

-- `url.PathEscape`
unfoldable pub path_escape : Text → Text
unfolding is_unreserved hex_digit
path_escape [] = []
path_escape (c ∷ s) =
    let rest = path_escape s in
    if is_unreserved c then c ∷ rest else b'%' ∷ hex_digit (c / 16) ∷ hex_digit (c % 16) ∷ rest

-- `PathToURI`
unfoldable pub path_to_uri : Text → Text
unfolding path_escape split join
path_to_uri path =
    let slashed = if has_prefix (b'/' ∷ []) path then path else b'/' ∷ path in
    txt "file://" ++ join (b'/' ∷ []) (map path_escape (split b'/' slashed))

abbrev pub err_code_method_not_found : ℤ
err_code_method_not_found = negsuc 32600

-- `IsMethodNotFound`
unfoldable pub is_method_not_found : Error → Bool
is_method_not_found (message m) = false
is_method_not_found (sentinel s) = false
is_method_not_found (wrap m e) = is_method_not_found e
is_method_not_found (response code m) = eqz code err_code_method_not_found

path_to_uri_test : path_to_uri (txt "/w/a b/x.c") ≡ txt "file:///w/a%20b/x.c"
unfolding path_to_uri has_prefix
path_to_uri_test = refl
