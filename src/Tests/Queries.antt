-- ===== src/Tests/Queries.antt =====
-- Runs of internal/xref on a host with one repository.
use dotfs_mcp_server.Utils.Paths.{
  join_path, strip_common, way, rel_clean, rel, clean, elements, is_abs,
}
use dotfs_mcp_server.Base.{
  has_prefix, trim_space, addz, decimalz, ◌≡◌, refl, true, List, [], ◌∷◌, ◌++◌, Text, txt, Result,
  ok, err, message, pos, length, bytes_eq, lookup,
}
use dotfs_mcp_server.Xref.Service.Resolve.{escapes, resolve_in_repo}
use dotfs_mcp_server.Lsp.Protocol.{
  drop_volume_slash, uri_path, Position, Range, Location, Url, Item,
}
use dotfs_mcp_server.Xref.Compact.{locate, Service}
use dotfs_mcp_server.Xref.Compact.Laws.{place_of, note, distinct_places}
use dotfs_mcp_server.Xref.Source.{lines, read_lines}
use dotfs_mcp_server.Xref.Source.Laws.{IsCoherent, lines-IsCoherent}
use dotfs_mcp_server.Xref.Service.{Session, Provider, Place}
use dotfs_mcp_server.Xref.Service.Laws.{resolve_in_repo_inside}
use dotfs_mcp_server.Tests.Data.{host}

abbrev at : Position
at = record { line = pos 0; character = pos 4 }

abbrev span : Range
span = record { start = at; stop = at }

abbrev location : Text → Location
location path = record { uri = path; range = span }

abbrev hits : List Location
hits =
    location (txt "/w/demo/a.c") ∷ location (txt "/w/demo/b.c") ∷ location (txt "/w/demo/a.c") ∷ []

abbrev parse_url : Text → Result Url
parse_url uri = ok (record { scheme = txt "file"; host = []; path = uri })

abbrev pub service : Service
service = record {
  fs = host;
  root = txt "/w";
  limit = 20;
  parse_url = parse_url;
  unmarshal_locations = λ raw. ok hits;
  unmarshal_links = λ raw. ok [];
  unmarshal_location = λ raw. err (message []);
}

abbrev callee : Item
callee = record {
  name = txt "add";
  kind = 12;
  detail = [];
  uri = txt "/w/demo/a.c";
  range = span;
  selection_range = span;
  data_json = [];
}

abbrev session : Session
session = record {
  ensure_open = λ path language. ok tt;
  call_locations = λ method p declaration. ok hits;
  call_raw = λ method p. ok (txt "[]");
  call_items = λ method p. ok (callee ∷ []);
  call_relatives = λ method i. ok [];
  call_incoming = λ method i. ok (record { caller = callee; from_ranges = span ∷ span ∷ [] } ∷ []);
  call_outgoing = λ method i. ok [];
}

abbrev pub provider : Provider
provider = record { client_session = λ repo dir lang. ok session }

abbrev pub place : Place
place = record { repo = txt "demo"; file_path = txt "a.c"; line = pos 1; character = pos 5 }

-- The second hit on /w/demo/a.c is dropped.
distinct_test : length (distinct_places service hits []) ≡ 2
unfolding distinct_places place_of uri_path bytes_eq note locate rel rel_clean clean
    drop_volume_slash way strip_common elements decimalz addz
distinct_test = refl

demo_is_abs : is_abs (clean (txt "/w/demo")) ≡ true
unfolding is_abs clean
demo_is_abs = refl

unwrapped : (real : Text) → ok (txt "/w/demo") ≡ ok real → txt "/w/demo" ≡ real
unwrapped real e = cc

clean-is_abs :
    (real : Text) → host.eval_symlinks (txt "/w/demo") ≡ ok real → is_abs (clean real) ≡ true
clean-is_abs real e = rw (← unwrapped real e) demo_is_abs

resolve_in_repo_inside_example :
    (real : Text) × (below : List Text) × (host.eval_symlinks (txt "/w/demo") ≡ ok real)
    × (elements (clean (txt "/w/demo/a.c")) ≡ elements (clean real) ++ below)
unfolding resolve_in_repo bytes_eq trim_space is_abs escapes clean has_prefix rel rel_clean
    join_path way strip_common elements
resolve_in_repo_inside_example =
    resolve_in_repo_inside host (txt "/w/demo") (txt "a.c") (txt "/w/demo/a.c") (txt "a.c")
      clean-is_abs refl

nothing_cached : IsCoherent host []
unfolding lookup
nothing_cached path kept e = cc

lines-IsCoherent_example :
    ((lines host [] (txt "/w/demo/a.c")).0 ≡ read_lines host (txt "/w/demo/a.c"))
    × IsCoherent host (lines host [] (txt "/w/demo/a.c")).1
lines-IsCoherent_example = lines-IsCoherent host [] (txt "/w/demo/a.c") nothing_cached
