-- ===== src/Xref/Compact/Laws.antt =====
-- internal/xref/compact.go: what a compacting loop keeps of the hits that it meets.
use dotfs_mcp_server.Base.{
  ℕ, zero, suc, ◌≡◌, refl, ◌≤◌, ◌<◌, Bool, true, false, List, [], ◌∷◌, ◌++◌, Text, bytes_eq, leb,
  length, take, contains, Distinct, Option, none, some, Bool-cases, inl, inr, arith, length-append,
  map, sym, ap, ◌∙◌, if◌then◌else◌, ok, err, Result-cases, contains-append, decimalz, addz,
  take-append_full, take-append_room, length-take, length-map, map-append,
}
use dotfs_mcp_server.Lsp.Protocol.{Location, Position, uri_path}
use dotfs_mcp_server.Xref.Source.{Cache}
use dotfs_mcp_server.Xref.Compact.{
  Reference, Service, Tally, place_key, admit, load, take_in, reference, fresh, compact_loop,
  compact_locations, name_hit, hit_at, locate,
}

-- A place is noted once, behind the others.
unfoldable pub note : List Text → Text → List Text
note places k = if contains places k then places else places ++ k ∷ []

-- The key of a location's place, which no source file is read for.
unfoldable pub place_of : Service → Text → Position → Option Text
place_of s uri p = elim (uri_path s.parse_url uri) [
  | err e ↦ none
  | ok abs ↦ some ((locate s.root abs).1 ++ b':' ∷ decimalz (addz p.line 1))
]

abbrev pub note_found : List Text → Option Text → List Text
note_found places none = places
note_found places (some k) = note places k

-- The distinct places of some locations, in the order in which they are met.
unfoldable pub distinct_places : Service → List Location → List Text → List Text
distinct_places s [] places = places
distinct_places s (loc ∷ locs) places =
    distinct_places s locs (note_found places (place_of s loc.uri loc.range.start))

-- A place that is noted is seen, in whatever order.
contains-snoc :
    (seen places : List Text) (p k : Text)
    → contains seen k ≡ contains places k
    → contains (p ∷ seen) k ≡ contains (places ++ p ∷ []) k
contains-snoc seen places p k same = ground (arith, same, contains-append places (p ∷ []) k)

counted-snoc :
    (n : ℕ) (places : List Text) (p : Text) → n ≡ length places → suc n ≡ length (places ++ p ∷ [])
counted-snoc n places p same = omega (arith, same, length-append places (p ∷ []))

-- The place of a hit does not depend on what the source files hold.
place_key-hit_at :
    (s : Service) (src : Cache) (abs : Text) (p : Position)
    → place_key (hit_at s src abs p).0 ≡ (locate s.root abs).1 ++ b':' ∷ decimalz (addz p.line 1)
unfolding place_key hit_at
place_key-hit_at s src abs p = refl

module _ {A : Type 0} (s : Service) (key : A → Text) where
  -- The loop has met these places: it has seen and counted them all, and keeps the first ones.
  pub record Tells (places : List Text) (st : Tally A) : Type 0 where
    pub seen : (k : Text) → contains st.seen k ≡ contains places k
    pub counted : st.total ≡ length places
    pub kept : map key st.out ≡ take s.limit places

  out-length :
      (places : List Text) (st : Tally A)
      → Tells places st
      → length st.out ≡ (if leb s.limit (length places) then s.limit else length places)
  out-length places st t =
      sym (length-map key st.out) ∙ ap length t.kept ∙ length-take s.limit places

  admit-Tells :
      (make : Reference → Cache → A × Cache) (places : List Text) (st : Tally A) (ref : Reference)
      → ((src : Cache) → key (make ref src).0 ≡ place_key ref)
      → Tells places st
      → Tells (note places (place_key ref)) (admit s.limit make ref st)
  unfolding admit note
  admit-Tells make places st ref keyed t = elim (Bool-cases (contains places (place_key ref))) [
    | inl dup ↦ rw (dup, t.seen (place_key ref) ∙ dup) t
    | inr new ↦
        rw (new, t.seen (place_key ref) ∙ new)
          elim (Bool-cases (leb s.limit (length st.out))) [
            | inl full ↦
                let is_full : s.limit ≤ length places =
                  ground (arith, full, out-length places st t) in
                rw full (record {
                  seen = λ k. contains-snoc st.seen places (place_key ref) k (t.seen k);
                  counted = counted-snoc st.total places (place_key ref) t.counted;
                  kept =
                      t.kept ∙ sym (take-append_full s.limit places (place_key ref ∷ []) is_full);
                })
            | inr room ↦
                let is_room : length places < s.limit =
                  ground (arith, room, out-length places st t) in
                rw room (record {
                  seen = λ k. contains-snoc st.seen places (place_key ref) k (t.seen k);
                  counted = counted-snoc st.total places (place_key ref) t.counted;
                  kept =
                      map-append key st.out ((make ref st.src).0 ∷ [])
                      ∙ ap (λ w. map key st.out ++ w ∷ []) (keyed st.src)
                      ∙ ap (λ ks. ks ++ place_key ref ∷ []) t.kept
                      ∙ sym (take-append_room s.limit places (place_key ref) is_room);
                })
          ]
  ]

  Tells-load :
      (src : Cache) (places : List Text) (st : Tally A)
      → Tells places st
      → Tells places (load src st)
  Tells-load src places st t = record { seen = t.seen; counted = t.counted; kept = t.kept }

  pub take_in-Tells :
      (make : Reference → Cache → A × Cache) (places : List Text) (st : Tally A) (uri : Text)
      (p : Position)
      → ((ref : Reference) (src : Cache) → key (make ref src).0 ≡ place_key ref)
      → Tells places st
      → Tells (note_found places (place_of s uri p)) (take_in s make uri p st)
  unfolding take_in reference place_of
  take_in-Tells make places st uri p keyed t = elim (Result-cases (uri_path s.parse_url uri)) [
    | inl (e, bad) ↦
        rw (bad, note_found, place_of, take_in, reference) (Tells-load st.src places st t)
    | inr (abs, found) ↦
        rw (found, note_found, place_of, take_in, reference)
          (rw (place_key-hit_at s st.src abs p) at (
            admit-Tells make places _ (hit_at s st.src abs p).0 (keyed (hit_at s st.src abs p).0)
              (Tells-load (hit_at s st.src abs p).1 places st t)))
  ]

take-none : {A : Type 0} (n : ℕ) → [] ≡ take {A = A} n []
take-none zero = refl
take-none (suc n) = refl

pub Tells-fresh :
    {A : Type 0} (s : Service) (key : A → Text) (src : Cache) → Tells s key [] (fresh src)
Tells-fresh s key src = record { seen = λ k. refl; counted = refl; kept = take-none s.limit }

name_hit-place_key :
    (s : Service) (named : Bool) (uri : Text) (ref : Reference) (src : Cache)
    → place_key (name_hit s named uri ref src).0 ≡ place_key ref
unfolding name_hit place_key
name_hit-place_key s false uri ref src = refl
name_hit-place_key s true uri ref src = elim (Result-cases (uri_path s.parse_url uri)) [
  | inl (e, bad) ↦ rw bad refl
  | inr (abs, found) ↦ rw found refl
]

compact_loop-Tells :
    (s : Service) (named : Bool) (locs : List Location) (places : List Text) (st : Tally Reference)
    → Tells s place_key places st
    → Tells s place_key (distinct_places s locs places) (compact_loop s named locs st)
unfolding compact_loop distinct_places
compact_loop-Tells s named [] places st t = t
compact_loop-Tells s named (loc ∷ locs) places st t = compact_loop-Tells s named locs _ _ (
    take_in-Tells s place_key (name_hit s named loc.uri) places st loc.uri loc.range.start
      (name_hit-place_key s named loc.uri) t)

pub compact_locations_lem :
    (s : Service) (locs : List Location) (src : Cache) (named : Bool)
    → ((compact_locations s locs src named).0.1 ≡ length (distinct_places s locs []))
      × (map place_key (compact_locations s locs src named).0.0
          ≡ take s.limit (distinct_places s locs []))
unfolding compact_locations
compact_locations_lem s locs src named =
    let t = compact_loop-Tells s named locs [] (fresh src) (Tells-fresh s place_key src) in
    (t.counted, t.kept)

Distinct-snoc :
    (places : List Text) (k : Text)
    → Distinct places
    → contains places k ≡ false
    → Distinct (places ++ k ∷ [])
Distinct-snoc [] k d new = (refl, tt)
Distinct-snoc (p ∷ places) k (d, ds) new = (
  ground (arith, contains-append places (k ∷ []) p, d, new),
  Distinct-snoc places k ds (ground (arith, new)),
)

Distinct-note_found :
    (places : List Text) (o : Option Text) → Distinct places → Distinct (note_found places o)
unfolding note
Distinct-note_found places none d = d
Distinct-note_found places (some k) d = elim (Bool-cases (contains places k)) [
  | inl dup ↦ rw dup d
  | inr new ↦ rw new (Distinct-snoc places k d new)
]

-- No place is listed twice.
pub Distinct-distinct_places :
    (s : Service) (locs : List Location) (places : List Text)
    → Distinct places
    → Distinct (distinct_places s locs places)
unfolding distinct_places
Distinct-distinct_places s [] places d = d
Distinct-distinct_places s (loc ∷ locs) places d =
    Distinct-distinct_places s locs _
      (Distinct-note_found places (place_of s loc.uri loc.range.start) d)
