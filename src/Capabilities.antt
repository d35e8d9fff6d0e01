-- ===== src/Capabilities.antt =====
-- internal/capabilities/capabilities.go: the matrix of curated profiles, and the briefing.
pub mod Order
pub mod Laws
use dotfs_mcp_server.Base.{
  ℕ, zero, Bool, true, false, not, ◌&&◌, Option, none, some, List, [], ◌∷◌, ◌++◌, map, Text, txt,
  ◌==◌, nat_eq, bytes_eq, trim_space, to_lower, join, decimal, less, ltb, sort, is_empty, Dict,
  lookup, insert, Result, ok, err, wrapped, if◌then◌else◌,
}

-- `Profile`
pub record Profile : Type 0 where
  pub repo : Text
  pub language : Text
  pub summary : Text
  pub features : List Text
  pub interfaces : List Text
  pub criticality : Text

-- `Observation`; a map is its entries in some order, each key once.
pub record Observation : Type 0 where
  pub indexed : Bool
  pub symbol_count : ℕ
  pub function_count : ℕ
  pub file_count : ℕ
  pub languages : Dict Text ℕ
  pub symbol_types : Dict Text ℕ
  pub samples : List Text

-- `Matrix`
pub record Matrix : Type 0 where
  pub profiles : Dict Text Profile

-- The loop of `NewMatrix`
unfoldable pub add_profiles : List Profile → Dict Text Profile → Dict Text Profile
unfolding insert trim_space
add_profiles [] m = m
add_profiles (p ∷ ps) m =
    add_profiles ps (if is_empty (trim_space p.repo) then m else insert p.repo p m)

-- `NewMatrix`
unfoldable pub new_matrix : List Profile → Matrix
unfolding add_profiles
new_matrix profiles = record { profiles = add_profiles profiles [] }

-- `Load`, on what `json.Unmarshal` makes of the embedded file
unfoldable pub load_matrix : Result (List Profile) → Result Matrix
unfolding new_matrix
load_matrix (err e) = wrapped (txt "parse capability matrix capabilities.json") (err e)
load_matrix (ok profiles) = ok (new_matrix profiles)

-- `Matrix.Lookup`
unfoldable pub lookup_profile : Matrix → Text → Option Profile
unfolding lookup
lookup_profile m repo = lookup repo m.profiles

-- The order of `symbolBreakdown` and of `languageStack`: the larger count first, then the key.
unfoldable pub entry_less : Text × ℕ → Text × ℕ → Bool
unfolding less
entry_less (k, n) (j, m) = if not (n == m) then ltb m n else less k j

-- The entries, each as "key (count" with a suffix
unfoldable pub render_entry : Text → Text × ℕ → Text
unfolding decimal
render_entry unit (k, n) = k ++ txt " (" ++ decimal n ++ unit ++ txt ")"

-- `symbolBreakdown`
unfoldable pub symbol_breakdown : Dict Text ℕ → Text
unfolding entry_less render_entry sort join
symbol_breakdown types =
    if is_empty types then [] else join (txt ", ") (map (render_entry []) (sort entry_less types))

-- `languageStack`
unfoldable pub language_stack : Dict Text ℕ → Text
unfolding entry_less render_entry sort join
language_stack languages =
    if is_empty languages
    then []
    else join (txt ", ") (map (render_entry (txt " symbols")) (sort entry_less languages))

abbrev newline : Text
newline = b'\n' ∷ []

-- `strings.EqualFold` for a text of the letters of "c" and "go", the languages of the engines: no letter
-- beyond the ASCII ones folds to one of these.
unfoldable pub equal_fold : Text → Text → Bool
unfolding to_lower
equal_fold a b = to_lower a == to_lower b

-- The lines of a list, "- %s\n" each
unfoldable pub bullets : List Text → Text
bullets [] = []
bullets (l ∷ ls) = txt "- " ++ l ++ newline ++ bullets ls

-- The language section: what is curated goes first, then what the cache shows.
unfoldable pub describe_stack : Option Profile → Text → Text
unfolding equal_fold
describe_stack profile stack =
    let observed =
      if not (is_empty stack)
      then txt "Engineering language stack: "
        ++ stack
        ++ txt " (derived from the indexed AST cache)"
        ++ newline
      else txt "Engineering language stack: unknown (repository not indexed yet)" ++ newline in
    elim profile [
      | none ↦ observed
      | some p ↦
          if not (is_empty p.language)
          then txt "Engineering language stack: "
            ++ p.language
            ++ newline
            ++ (if not (is_empty stack) && not (equal_fold stack p.language)
                then txt "Observed in cache: " ++ stack ++ newline
                else [])
          else observed
    ]

-- The sections of a curated profile, or the note that there is none
unfoldable pub describe_profile : Option Profile → Text
unfolding bullets
describe_profile none =
    newline
    ++ txt "## Business responsibility"
    ++ newline
    ++ txt "No curated profile is registered for this repository. "
    ++ txt "The description below is inferred exclusively from the indexed structural cache."
    ++ newline
describe_profile (some p) =
    (if is_empty p.summary
      then []
      else newline ++ txt "## Business responsibility" ++ newline ++ p.summary ++ newline)
    ++ (if is_empty p.features
        then []
        else newline ++ txt "## Implemented semantic features" ++ newline ++ bullets p.features)
    ++ (if is_empty p.interfaces
        then []
        else newline
          ++ txt "## Interfaces and integration points"
          ++ newline
          ++ bullets p.interfaces)
    ++ (if is_empty p.criticality
        then []
        else newline ++ txt "Operational criticality: " ++ p.criticality ++ newline)

-- The section on what the cache holds
unfoldable pub describe_footprint : Text → Observation → Text
unfolding symbol_breakdown join decimal
describe_footprint repo obs =
    newline
    ++ txt "## Indexed structural footprint"
    ++ newline
    ++ (if not obs.indexed
        then txt "- No cached symbols. Trigger POST /api/v1/"
          ++ repo
          ++ txt "/update to index it."
          ++ newline
        else txt "- Cached symbols: "
          ++ decimal obs.symbol_count
          ++ txt " (functions and methods: "
          ++ decimal obs.function_count
          ++ txt ")"
          ++ newline
          ++ txt "- Source files carrying cached symbols: "
          ++ decimal obs.file_count
          ++ newline
          ++ (if is_empty (symbol_breakdown obs.symbol_types)
              then []
              else txt "- Declaration mix: " ++ symbol_breakdown obs.symbol_types ++ newline)
          ++ (if is_empty obs.samples
              then []
              else txt "- Representative declarations: " ++ join (txt ", ") obs.samples ++ newline)
          ++ newline
          ++ txt "Use lookup_symbol, get_type_definition or lookup_macro_or_const with any of the "
          ++ txt "declarations above to retrieve the exact source body and documentation."
          ++ newline)

-- `Describe`
unfoldable pub describe : Matrix → Text → Observation → Text
unfolding lookup_profile describe_stack describe_profile describe_footprint language_stack
describe m repo obs =
    txt "# Repository: "
    ++ repo
    ++ newline
    ++ newline
    ++ describe_stack (lookup_profile m repo) (language_stack obs.languages)
    ++ describe_profile (lookup_profile m repo)
    ++ describe_footprint repo obs
