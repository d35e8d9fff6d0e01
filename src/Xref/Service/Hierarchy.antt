-- ===== src/Xref/Service/Hierarchy.antt =====
-- internal/xref/service.go: `TypeHierarchy`, `typeDefinition` and `relatives`.
pub mod Laws
use dotfs_mcp_server.Base.{
  ℕ, Bool, true, not, ◌&&◌, ◌||◌, List, [], ◌∷◌, ◌++◌, Text, txt, ◌==◌, bytes_eq, leb, length,
  trim_space, to_lower, Option, none, some, Result, ok, err, message, reject_if, ◌>>=◌, ◌>>◌,
  if◌then◌else◌,
}
use dotfs_mcp_server.Lsp.Protocol.{Location, Item, kind_string, is_method_not_found}
use dotfs_mcp_server.Xref.Source.{Cache}
use dotfs_mcp_server.Xref.Compact.{Service, Reference, reference, name_hit, decode_locations}
use dotfs_mcp_server.Xref.Service.{
  Provider, Place, Target, params, call, Hint, no_hint, fallback_hint, no_type_hierarchy,
}
use dotfs_mcp_server.Xref.Service.Resolve.{resolve}

abbrev pub direction_supertypes : Text
direction_supertypes = txt "supertypes"

abbrev pub direction_subtypes : Text
direction_subtypes = txt "subtypes"

abbrev pub direction_both : Text
direction_both = txt "both"

-- `TypeHierarchyResult`
pub record TypeHierarchyResult : Type 0 where
  pub symbol : Text
  pub definition : Option Reference
  pub total_supertypes : ℕ
  pub supertypes : List Reference
  pub total_subtypes : ℕ
  pub subtypes : List Reference
  pub hint : Hint

abbrev named_hit : Service → Text → Option Reference × Cache → Option Reference × Cache
named_hit s uri (none, src) = (none, src)
named_hit s uri (some ref, src) =
    (some (name_hit s true uri ref src).0, (name_hit s true uri ref src).1)

abbrev first_hit : Service → Cache → Result (List Location) → Option Reference × Cache
first_hit s src (err e) = (none, src)
first_hit s src (ok []) = (none, src)
first_hit s src (ok (loc ∷ _)) = named_hit s loc.uri (reference s loc.uri loc.range.start src)

-- The first location that the server answers to a method, as a hit.
unfoldable pub definition_by : Service → Bool → Target → Text → Cache → Option Reference × Cache
definition_by s alive t method src =
    first_hit s src
      (do raw ← call alive (t.session.call_raw method (params t)); decode_locations s raw)

abbrev or_by : Service → Bool → Target → Text → Option Reference × Cache → Option Reference × Cache
or_by s alive t method (some ref, src) = (some ref, src)
or_by s alive t method (none, src) = definition_by s alive t method src

-- `typeDefinition`
unfoldable pub type_definition : Service → Bool → Target → Option Reference × Cache
type_definition s alive t =
    or_by s alive t (txt "textDocument/definition")
      (definition_by s alive t (txt "textDocument/typeDefinition") t.src)

abbrev pub label : Item → Reference → Reference
label item ref = record {
  name = item.name;
  kind = kind_string item.kind;
  repo = ref.repo;
  file_path = ref.file_path;
  line = ref.line;
  character = ref.character;
  snippet = ref.snippet;
}

abbrev pub push_found : Item → Option Reference → List Reference → List Reference
push_found item none out = out
push_found item (some ref) out = out ++ label item ref ∷ []

unfoldable pub relatives_loop :
    Service → List Item → List Reference → Cache → List Reference × Cache
relatives_loop s [] out src = (out, src)
relatives_loop s (item ∷ items) out src =
    let hit = reference s item.uri item.selection_range.start src in
    let rest = relatives_loop s items (push_found item hit.0 out) hit.1 in
    if leb s.limit (length out) then (out, src) else rest

-- The hits, how many items the server answered, and the cache.
unfoldable pub relatives :
    Service → Bool → Target → Text → Item → Cache → Result ((List Reference × ℕ) × Cache)
relatives s alive t method item src = elim (call alive (t.session.call_relatives method item)) [
  | err e ↦ if is_method_not_found e then ok (([], 0), src) else err e
  | ok items ↦
      ok (((relatives_loop s items [] src).0, length items), (relatives_loop s items [] src).1)
]

abbrev pub side :
    Service → Bool → Target → Bool → Text → Item → Cache → Result ((List Reference × ℕ) × Cache)
side s alive t wanted method item src =
    if wanted then relatives s alive t method item src else ok (([], 0), src)

-- The answer on the first item of the server.
unfoldable pub type_relatives :
    Service
    → Bool
    → Target
    → Text
    → Option Reference
    → Cache
    → List Item
    → Result TypeHierarchyResult
type_relatives s alive t direction definition src [] = ok (record {
  symbol = t.name;
  definition = definition;
  total_supertypes = 0;
  supertypes = [];
  total_subtypes = 0;
  subtypes = [];
  hint = elim definition [ none ↦ fallback_hint | some _ ↦ no_type_hierarchy ];
})
type_relatives s alive t direction definition src (item ∷ _) = do
  supers ←
      side s alive t (direction == direction_supertypes || direction == direction_both)
        (txt "typeHierarchy/supertypes") item src
  subs ←
      side s alive t (direction == direction_subtypes || direction == direction_both)
        (txt "typeHierarchy/subtypes") item supers.1
  ok (record {
    symbol = if item.name == [] then t.name else item.name;
    definition = definition;
    total_supertypes = supers.0.1;
    supertypes = supers.0.0;
    total_subtypes = subs.0.1;
    subtypes = subs.0.0;
    hint = no_hint;
  })

-- A server without the method answers no items.
abbrev pub or_unsupported : Result (List Item) → Result (List Item)
or_unsupported (ok items) = ok items
or_unsupported (err e) = if is_method_not_found e then ok [] else err e

abbrev pub direction_of : Text → Text
direction_of wanted = if wanted == [] then direction_both else wanted

-- `TypeHierarchy`
unfoldable pub type_hierarchy :
    Service → Provider → Bool → Place → Text → Result TypeHierarchyResult
type_hierarchy s provider alive place wanted = do
  let direction = direction_of (to_lower (trim_space wanted))
  reject_if
      (not (direction == direction_supertypes)
        && not (direction == direction_subtypes)
        && not (direction == direction_both))
      (message (txt "xref: direction must be supertypes, subtypes or both"))
  t ← resolve s provider place
  let definition = type_definition s alive t
  items ←
      or_unsupported
        (call alive (t.session.call_items (txt "textDocument/prepareTypeHierarchy") (params t)))
  type_relatives s alive t direction definition.0 definition.1 items
