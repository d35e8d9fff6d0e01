-- ===== src/Store/Keys.antt =====
-- internal/ast/store/store.go: the key layout, and the name read back from an index key.
pub mod Esc
pub mod Layout
use dotfs_mcp_server.Base.{
  ℕ, ◌+◌, Bool, true, false, ◌&&◌, Option, none, some, List, [], ◌∷◌, ◌++◌, Text, txt, ◌==◌, nat_eq,
  bytes_eq, contains, has_prefix, drop, length, cut, trim_space, is_empty, padded, decimal, ℤ, pos,
  negsuc, if◌then◌else◌, ◌≡◌, refl,
}
use dotfs_mcp_server.Ast.{SymbolRecord, blank}

abbrev pub sym_prefix : Text
sym_prefix = txt "sym:"

abbrev pub name_idx_prefix : Text
name_idx_prefix = txt "idx:name:"

abbrev pub type_idx_prefix : Text
type_idx_prefix = txt "idx:type:"

abbrev pub file_idx_prefix : Text
file_idx_prefix = txt "idx:file:"

abbrev pub colon : Text
colon = b':' ∷ []

-- `esc`: every ":" becomes "%3A".
unfoldable pub esc : Text → Text
unfolding nat_eq
esc [] = []
esc (c ∷ s) = let rest = esc s in if c == b':' then b'%' ∷ b'3' ∷ b'A' ∷ rest else c ∷ rest

-- `strings.ReplaceAll(s, "%3A", ":")`
unfoldable pub unesc : Text → Text
unfolding nat_eq
unesc [] = []
unesc (a ∷ []) = a ∷ []
unesc (a ∷ b ∷ []) = a ∷ b ∷ []
unesc (a ∷ b ∷ c ∷ s) =
    let hit = b':' ∷ unesc s in
    let miss = a ∷ unesc (b ∷ c ∷ s) in if a == b'%' && (b == b'3' && c == b'A') then hit else miss

-- `offsetToken`, `%08d`; the width counts the sign.
unfoldable pub offset_token : ℤ → Text
unfolding padded decimal
offset_token (pos n) = padded 8 (decimal n)
offset_token (negsuc n) = b'-' ∷ padded 7 (decimal (n + 1))

-- `PrimaryKey`
unfoldable pub primary_key : SymbolRecord → Text
unfolding esc offset_token
primary_key rec =
    sym_prefix
    ++ (esc rec.repo_name
        ++ (colon
            ++ (esc rec.file_path
                ++ (colon
                    ++ (esc rec.symbol_type
                        ++ (colon ++ (esc rec.name ++ (colon ++ offset_token rec.start_byte))))))))

-- `nameIndexKey`
unfoldable pub name_index_key : Text → SymbolRecord → Text
unfolding esc offset_token
name_index_key name rec =
    name_idx_prefix
    ++ (esc name
        ++ (colon
            ++ (esc rec.repo_name
                ++ (colon ++ (esc rec.file_path ++ (colon ++ offset_token rec.start_byte))))))

-- `typeIndexKey`
unfoldable pub type_index_key : Text → SymbolRecord → Text
unfolding esc offset_token
type_index_key name rec =
    type_idx_prefix
    ++ (esc rec.symbol_type
        ++ (colon
            ++ (esc name
                ++ (colon
                    ++ (esc rec.repo_name
                        ++ (colon
                            ++ (esc rec.file_path ++ (colon ++ offset_token rec.start_byte))))))))

-- `fileIndexKey`
unfoldable pub file_index_key : SymbolRecord → Text
unfolding esc offset_token
file_index_key rec =
    file_idx_prefix
    ++ (esc rec.repo_name
        ++ (colon ++ (esc rec.file_path ++ (colon ++ offset_token rec.start_byte))))

-- `repoSymbolPrefix`
unfoldable pub repo_symbol_prefix : Text → Text
unfolding esc
repo_symbol_prefix repo = sym_prefix ++ (esc repo ++ colon)

-- `fileSymbolPrefix`
unfoldable pub file_symbol_prefix : Text → Text → Text
unfolding esc
file_symbol_prefix repo file = sym_prefix ++ (esc repo ++ (colon ++ (esc file ++ colon)))

-- The loop of `indexKeys`; `seen` holds the names met so far.
unfoldable pub name_keys : SymbolRecord → List Text → List Text → List Text
unfolding name_index_key type_index_key blank
name_keys rec seen [] = []
name_keys rec seen (n ∷ names) =
    let skip = name_keys rec seen names in
    let more = name_index_key n rec ∷ type_index_key n rec ∷ name_keys rec (n ∷ seen) names in
    if blank n then skip else if contains seen n then skip else more

-- `indexKeys`
unfoldable pub index_keys : SymbolRecord → List Text
unfolding name_keys file_index_key
index_keys rec = name_keys rec [] (rec.name ∷ rec.aliases) ++ (file_index_key rec ∷ [])

-- The last part of `matchedName`: the component before the next separator.
unfoldable pub component : Text → Option Text
unfolding cut unesc
component rest = elim (cut b':' rest) [ none ↦ none | some (a, b) ↦ some (unesc a) ]

-- `matchedName`
unfoldable pub matched_name : Text → Bool → Option Text
unfolding component has_prefix
matched_name key true =
    if has_prefix type_idx_prefix key
    then elim (cut b':' (drop (length type_idx_prefix) key)) [
      | none ↦ none
      | some (a, b) ↦ component b
    ]
    else none
matched_name key false =
    if has_prefix name_idx_prefix key then component (drop (length name_idx_prefix) key) else none
