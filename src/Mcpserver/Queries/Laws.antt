-- ===== src/Mcpserver/Queries/Laws.antt =====
-- internal/mcpserver/server.go: `lookup_symbol` takes every kind that its schema offers.
use mathlib.Core.Path.{subst}
use dotfs_mcp_server.Base.{
  ◌≡◌, refl, inl, inr, true, false, List, [], ◌∷◌, Text, txt, ◌==◌, bytes_eq, nat_eq, contains,
  trim_space, to_lower, is_empty, All, ok, Bool-cases, arith,
}
use dotfs_mcp_server.Ast.{parse_symbol_type}
use dotfs_mcp_server.Mcpserver.{Request}
use dotfs_mcp_server.Mcpserver.Arguments.{got}
use dotfs_mcp_server.Mcpserver.Queries.{wanted_types}
use dotfs_mcp_server.Mcpserver.Tools.{symbol_type_names}

-- A text that is read as the kind of its own name
abbrev IsKind : Text → Type 0
IsKind t = (is_empty (trim_space t) ≡ false) × (parse_symbol_type (trim_space t) ≡ ok t)

offered-IsKind : All IsKind symbol_type_names
unfolding symbol_type_names trim_space bytes_eq parse_symbol_type to_lower
offered-IsKind = (
  (refl, refl),
  (
    (refl, refl),
    (
      (refl, refl),
      (
        (refl, refl),
        (
          (refl, refl),
          ((refl, refl), ((refl, refl), ((refl, refl), ((refl, refl), ((refl, refl), tt))))),
        ),
      ),
    ),
  ),
)

All-contains :
    (P : Text → Type 0) (xs : List Text) (t : Text) → All P xs → contains xs t ≡ true → P t
All-contains P [] t h e = cc
All-contains P (x ∷ xs) t h e = elim (Bool-cases (t == x)) [
  | inl is ↦ subst P (let q : x ≡ t = ground arith in q) h.0
  | inr other ↦ All-contains P xs t h.1 (ground (arith, other))
]

read_kind :
    (req : Request) (t : Text)
    → req.get_string (txt "symbol_type") [] ≡ t
    → IsKind t
    → wanted_types req ≡ got (t ∷ [])
unfolding wanted_types
read_kind req t e h = rw e (rw (h.0) (rw (h.1) refl))

-- Every symbol type that the schema of `lookup_symbol` lists is accepted by its handler as that
-- type, and restricts the query to it.
pub wanted_types-offered :
    (req : Request) (t : Text)
    → contains symbol_type_names t ≡ true
    → req.get_string (txt "symbol_type") [] ≡ t
    → wanted_types req ≡ got (t ∷ [])
wanted_types-offered req t offered asked =
    read_kind req t asked (All-contains IsKind symbol_type_names t offered-IsKind offered)
