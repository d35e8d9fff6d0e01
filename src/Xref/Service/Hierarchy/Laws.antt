-- ===== src/Xref/Service/Hierarchy/Laws.antt =====
-- internal/xref/service.go: bounds of the two sides of a type hierarchy.
use dotfs_mcp_server.Base.{
  ℕ, suc, ◌≤◌, ◌+◌, Bool, true, false, not, ◌&&◌, ◌||◌, List, [], ◌∷◌, Text, ◌==◌, bytes_eq, leb,
  length, Option, none, some, to_lower, trim_space, reject_if, Ensures, Ensures-bind, Ensures-any,
  arith, length-append, Bool-cases, Result-cases, inl, inr,
}
use dotfs_mcp_server.Lsp.Protocol.{Item, is_method_not_found}
use dotfs_mcp_server.Xref.Source.{Cache}
use dotfs_mcp_server.Xref.Compact.{Service, Reference, reference}
use dotfs_mcp_server.Xref.Service.{Provider, Place, Target, call}
use dotfs_mcp_server.Xref.Service.Resolve.{resolve}
use dotfs_mcp_server.Xref.Service.Hierarchy.{
  TypeHierarchyResult, push_found, label, relatives_loop, relatives, side, type_relatives,
  or_unsupported, direction_of, type_hierarchy, type_definition, direction_supertypes,
  direction_subtypes, direction_both,
}

length-push_found :
    (item : Item) (o : Option Reference) (out : List Reference)
    → length (push_found item o out) ≤ suc (length out)
length-push_found item none out = omega arith
length-push_found item (some ref) out = omega (arith, length-append out (label item ref ∷ []))

relatives_loop-le :
    (s : Service) (items : List Item) (out : List Reference) (src : Cache)
    → length out ≤ s.limit
    → (length (relatives_loop s items out src).0 ≤ s.limit)
      × (length (relatives_loop s items out src).0 ≤ length out + length items)
unfolding relatives_loop
relatives_loop-le s [] out src h = (h, omega arith)
relatives_loop-le s (item ∷ items) out src h = elim (Bool-cases (leb s.limit (length out))) [
  | inl full ↦ rw full (h, omega arith)
  | inr room ↦
      let hit = reference s item.uri item.selection_range.start src in
      let grown = length-push_found item hit.0 out in
      let (within, few) =
        relatives_loop-le s items (push_found item hit.0 out) hit.1 (ground (arith, room, grown)) in
      rw room (within, omega (arith, few, grown))
]

-- At most as many hits as the limit, and as the server has answered.
abbrev pub SideBounded : ℕ → List Reference → ℕ → Type 0
SideBounded limit kept total = (length kept ≤ limit) × (length kept ≤ total)

abbrev Sided : Service → (List Reference × ℕ) × Cache → Type 0
Sided s ((kept, total), src) = SideBounded s.limit kept total

relatives-Sided :
    (s : Service) (alive : Bool) (t : Target) (method : Text) (item : Item) (src : Cache)
    → Ensures (Sided s) (relatives s alive t method item src)
unfolding relatives
relatives-Sided s alive t method item src =
    elim (Result-cases (call alive (t.session.call_relatives method item))) [
      | inr (items, is) ↦
          let (within, few) = relatives_loop-le s items [] src (omega arith) in
          rw (is, relatives) (within, omega (arith, few))
      | inl (e, is) ↦
          rw (is, relatives)
            elim (Bool-cases (is_method_not_found e)) [
              | inl unsupported ↦ rw unsupported (omega arith, omega arith)
              | inr other ↦ rw other tt
            ]
    ]

side-Sided :
    (s : Service) (alive : Bool) (t : Target) (wanted : Bool) (method : Text) (item : Item)
    (src : Cache)
    → Ensures (Sided s) (side s alive t wanted method item src)
side-Sided s alive t true method item src = relatives-Sided s alive t method item src
side-Sided s alive t false method item src = (omega arith, omega arith)

abbrev pub HierarchyBounded : ℕ → TypeHierarchyResult → Type 0
HierarchyBounded limit r =
    SideBounded limit r.supertypes r.total_supertypes
    × SideBounded limit r.subtypes r.total_subtypes

type_relatives-Bounded :
    (s : Service) (alive : Bool) (t : Target) (direction : Text) (definition : Option Reference)
    (src : Cache) (items : List Item)
    → Ensures (HierarchyBounded s.limit) (type_relatives s alive t direction definition src items)
unfolding type_relatives
type_relatives-Bounded s alive t direction definition src [] =
    ((omega arith, omega arith), (omega arith, omega arith))
type_relatives-Bounded s alive t direction definition src (item ∷ _) =
    let up =
      side-Sided s alive t (direction == direction_supertypes || direction == direction_both) _ item
        src in
    Ensures-bind (Sided s) _ (side s alive t _ _ item src) _ up (λ supers above.
      let down =
        side-Sided s alive t (direction == direction_subtypes || direction == direction_both) _ item
          supers.1 in
      Ensures-bind (Sided s) _ (side s alive t _ _ item supers.1) _ down
        (λ subs below. (above, below)))

-- An answer of `TypeHierarchy` holds on each side at most as many relatives as the limit, and as the
-- server has answered.
pub type_hierarchy-Bounded :
    (s : Service) (provider : Provider) (alive : Bool) (place : Place) (wanted : Text)
    → Ensures (HierarchyBounded s.limit) (type_hierarchy s provider alive place wanted)
unfolding type_hierarchy
type_hierarchy-Bounded s provider alive place wanted =
    let direction = direction_of (to_lower (trim_space wanted)) in
    let checked =
      reject_if
        (not (direction == direction_supertypes)
          && not (direction == direction_subtypes)
          && not (direction == direction_both))
        _ in
    Ensures-bind (λ _. Unit) _ checked _ (Ensures-any checked)
      (λ _ _.
        Ensures-bind (λ _. Unit) _ (resolve s provider place) _
          (Ensures-any (resolve s provider place))
          (λ t _.
            Ensures-bind (λ _. Unit) _ (or_unsupported (call alive _)) _
              (Ensures-any (or_unsupported (call alive _)))
              (λ items _.
                type_relatives-Bounded s alive t direction (type_definition s alive t).0
                  (type_definition s alive t).1 items)))
