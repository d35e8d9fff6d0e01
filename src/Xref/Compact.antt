-- ===== src/Xref/Compact.antt =====
-- internal/xref/compact.go and types.go: hits, and the pipeline that compacts them.
pub mod Laws
use dotfs_mcp_server.Base.{
  ℕ, zero, suc, ◌≡◌, refl, ◌-◌, Bool, true, false, not, ◌&&◌, ◌||◌, List, [], ◌∷◌, ◌++◌, Text, txt,
  ◌==◌, bytes_eq, leb, ltb, length, drop, split, join, cut, has_prefix, trim_prefix, trim_space,
  contains, Option, none, some, Result, ok, err, wrap, ◌>>=◌, wrapped, ℤ, addz, decimalz,
  if◌then◌else◌, nat_eq,
}
use dotfs_mcp_server.Utils.Files.{FileSystem}
use dotfs_mcp_server.Utils.Paths.{rel, dot, dot_dot, slash}
use dotfs_mcp_server.Lsp.Protocol.{Position, Range, Location, LocationLink, Url, uri_path}
use dotfs_mcp_server.Xref.Source.{Cache, line, identifier_at}

-- `Reference`
pub record Reference : Type 0 where
  pub name : Text
  pub kind : Text
  pub repo : Text
  pub file_path : Text
  pub line : ℤ
  pub character : ℤ
  pub snippet : Text

-- `Service`, and the decoders of net/url and encoding/json that it calls
pub record Service : Type 0 where
  pub fs : FileSystem
  pub root : Text
  pub limit : ℕ
  pub parse_url : Text → Result Url
  pub unmarshal_locations : Text → Result (List Location)
  pub unmarshal_links : Text → Result (List LocationLink)
  pub unmarshal_location : Text → Result Location

-- `MaxResults`
abbrev pub max_results : ℕ
max_results = 20

-- `externalRepo`
abbrev pub external_repo : Text
external_repo = txt "(external)"

-- `elide`
unfoldable pub elide : Text → Text
unfolding split join trim_prefix
elide abs =
    let parts = split b'/' abs in
    if leb (length parts) 3
    then trim_prefix slash abs
    else txt ".../" ++ join slash (drop (length parts - 3) parts)

abbrev external : Text → Text × Text
external abs = (external_repo, elide abs)

abbrev split_repo : Text → Option (Text × Text) → Text × Text
split_repo abs none = external abs
split_repo abs (some parts) = parts

abbrev place : Text → Result Text → Text × Text
place abs (err e) = external abs
place abs (ok r) =
    if r == dot || has_prefix dot_dot r then external abs else split_repo abs (cut b'/' r)

-- `locate`
unfoldable pub locate : Text → Text → Text × Text
unfolding elide cut
locate root abs = place abs (rel root abs)

-- A hit on the file at a path.
unfoldable pub hit_at : Service → Cache → Text → Position → Reference × Cache
hit_at s src abs p =
    let (repo, path) = locate s.root abs in
    let (snippet, src) = line s.fs src abs (addz p.line 1) in
    (
      record {
        name = [];
        kind = [];
        repo = repo;
        file_path = path;
        line = addz p.line 1;
        character = addz p.character 1;
        snippet = snippet;
      },
      src,
    )

-- `reference`
unfoldable pub reference : Service → Text → Position → Cache → Option Reference × Cache
reference s uri p src = elim (uri_path s.parse_url uri) [
  | err e ↦ (none, src)
  | ok abs ↦ (some (hit_at s src abs p).0, (hit_at s src abs p).1)
]

-- The state of a compacting loop: the keys seen, the hits kept, the count, and the cache.
pub record Tally (A : Type 0) : Type 0 where
  pub seen : List Text
  pub out : List A
  pub total : ℕ
  pub src : Cache

-- `fmt.Sprintf("%s:%d", ref.FilePath, ref.Line)`
unfoldable pub place_key : Reference → Text
place_key ref = ref.file_path ++ b':' ∷ decimalz ref.line

-- What a loop makes of a new hit that it keeps.
unfoldable pub admit :
    {A : Type 0} → ℕ → (Reference → Cache → A × Cache) → Reference → Tally A → Tally A
admit limit make ref st =
    if contains st.seen (place_key ref)
    then st
    else if leb limit (length st.out)
    then record { seen = place_key ref ∷ st.seen; out = st.out; total = suc st.total; src = st.src }
    else record {
      seen = place_key ref ∷ st.seen;
      out = st.out ++ (make ref st.src).0 ∷ [];
      total = suc st.total;
      src = (make ref st.src).1;
    }

abbrev pub load : {A : Type 0} → Cache → Tally A → Tally A
load src st = record { seen = st.seen; out = st.out; total = st.total; src = src }

abbrev pub take_found :
    {A : Type 0} → ℕ → (Reference → Cache → A × Cache) → Option Reference → Tally A → Tally A
take_found limit make none st = st
take_found limit make (some ref) st = admit limit make ref st

-- One location of a loop.
unfoldable pub take_in :
    {A : Type 0} → Service → (Reference → Cache → A × Cache) → Text → Position → Tally A → Tally A
take_in s make uri p st =
    take_found s.limit make (reference s uri p st.src).0 (load (reference s uri p st.src).1 st)

abbrev pub fresh : {A : Type 0} → Cache → Tally A
fresh src = record { seen = []; out = []; total = 0; src = src }

-- The name of a hit, if it is asked for.
unfoldable pub name_hit : Service → Bool → Text → Reference → Cache → Reference × Cache
name_hit s named uri ref src = if not named then (ref, src) else elim (uri_path s.parse_url uri) [
  | err e ↦ (ref, src)
  | ok abs ↦
      let (word, after) = identifier_at s.fs src abs ref.line ref.character in
      (
        record {
          name = word;
          kind = ref.kind;
          repo = ref.repo;
          file_path = ref.file_path;
          line = ref.line;
          character = ref.character;
          snippet = ref.snippet;
        },
        after,
      )
]

unfoldable pub compact_loop : Service → Bool → List Location → Tally Reference → Tally Reference
compact_loop s named [] st = st
compact_loop s named (loc ∷ locs) st =
    compact_loop s named locs (take_in s (name_hit s named loc.uri) loc.uri loc.range.start st)

-- `compactLocations`
unfoldable pub compact_locations :
    Service → List Location → Cache → Bool → (List Reference × ℕ) × Cache
compact_locations s locs src named =
    let st = compact_loop s named locs (fresh src) in ((st.out, st.total), st.src)

-- `hasURI`
unfoldable pub has_uri : List Location → Bool
has_uri [] = false
has_uri (loc ∷ locs) = not (loc.uri == []) || has_uri locs

-- The locations of the links that have a target.
unfoldable pub convert_links : List LocationLink → List Location
convert_links [] = []
convert_links (link ∷ links) =
    let rest = convert_links links in
    if link.target_uri == []
    then rest
    else record { uri = link.target_uri; range = link.target_selection_range } ∷ rest

abbrev located : Result (List Location) → Option (List Location)
located (err e) = none
located (ok locs) = if has_uri locs then some locs else none

abbrev single : Location → List Location
single loc = if loc.uri == [] then [] else loc ∷ []

-- `decodeLocations`
unfoldable pub decode_locations : Service → Text → Result (List Location)
decode_locations s raw =
    let trimmed = trim_space raw in
    if trimmed == [] || trimmed == txt "null"
    then ok []
    else if has_prefix (b'[' ∷ []) trimmed
    then elim (located (s.unmarshal_locations trimmed)) [
      | some locs ↦ ok locs
      | none ↦ do
        links ← wrapped (txt "xref: decode location array") (s.unmarshal_links trimmed)
        ok (convert_links links)
    ]
    else do
      loc ← wrapped (txt "xref: decode location") (s.unmarshal_location trimmed)
      ok (single loc)

elide_test : elide (txt "/usr/include/sys/types.h") ≡ txt ".../include/sys/types.h"
unfolding elide bytes_eq
elide_test = refl
