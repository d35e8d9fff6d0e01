-- ===== src/Store/Backend/Memory.antt =====
-- A database in memory that meets the laws, for the tests.
use dotfs_mcp_server.Base.{
  ◌≡◌, ◌≢◌, refl, true, Option, none, some, List, [], ◌∷◌, Text, bytes_eq, contains, has_prefix,
  if◌then◌else◌, ◌↔◌, Distinct, arith, Dict, lookup, insert, erase, lookup-insert, lookup-erase,
}
use dotfs_mcp_server.Ast.{SymbolRecord}
use dotfs_mcp_server.Store.Backend.{Fetched, found, missing, Backend, IsLawful}

pub data Cell : Type 0 where
  document : SymbolRecord → Cell
  reference : Text → Cell

-- Each key once, with its value.
abbrev pub Cells : Type 0
Cells = Dict Text Cell

abbrev fetched : Option Cell → Fetched Cell
fetched none = missing
fetched (some v) = found v

abbrev key_list : Cells → List Text
key_list [] = []
key_list ((k, v) ∷ m) = k ∷ key_list m

-- The keys under a prefix, without repetitions.
unfoldable pub keys_under : Text → Cells → List Text
keys_under p [] = []
keys_under p ((k, v) ∷ m) =
    let rest = keys_under p m in
    if contains rest k then rest else if has_prefix p k then k ∷ rest else rest

abbrev record_of : Cell → Option SymbolRecord
record_of (document r) = some r
record_of (reference t) = none

abbrev text_of : Cell → Text
text_of (document r) = []
text_of (reference t) = t

abbrev pub memory : Backend
memory = record {
  State = Cells;
  Value = Cell;
  get = λ s k. fetched (lookup k s);
  set = λ s k v. insert k v s;
  delete = λ s k. erase k s;
  keys = λ s p. keys_under p s;
  refuses = λ s t. none;
  marshal = document;
  unmarshal = record_of;
  of_text = reference;
  to_text = text_of;
  digest = λ t. t;
}

keys_under-Distinct : (p : Text) (m : Cells) → Distinct (keys_under p m)
unfolding keys_under
keys_under-Distinct p [] = tt
keys_under-Distinct p ((k, v) ∷ m) = ground (arith, keys_under-Distinct p m)

contains-keys_under :
    (p k : Text) (m : Cells)
    → (contains (keys_under p m) k ≡ true)
      ↔ ((has_prefix p k ≡ true) × (fetched (lookup k m) ≢ missing))
unfolding keys_under lookup
contains-keys_under p k [] = (λ h. cc, λ h. absurd (h.1 refl))
contains-keys_under p k ((j, v) ∷ m) = ground (arith, contains-keys_under p k m)

pub memory-IsLawful : IsLawful memory
memory-IsLawful = record {
  get-set = λ s k v j. rw (lookup-insert j k v s) (ground arith);
  get-delete = λ s k j. rw (lookup-erase j k s) (ground arith);
  contains-keys = λ s p k. contains-keys_under p k s;
  keys-Distinct = λ s p. keys_under-Distinct p s;
  unmarshal-marshal = λ r valid. refl;
  to_text-of_text = λ t. refl;
}
