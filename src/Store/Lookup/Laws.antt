-- ===== src/Store/Lookup/Laws.antt =====
-- internal/ast/store/store.go: what `Lookup` returns.
pub mod Scan
pub mod Complete
use dotfs_mcp_server.Base.{
  ℕ, ◌≡◌, ◌≤◌, refl, sym, ap, ◌∙◌, Bool, true, false, not, ◌&&◌, ◌⊎◌, inl, inr, Option, none, some,
  List, [], ◌∷◌, ◌++◌, Text, ◌==◌, nat_eq, bytes_eq, ltb, trim_space, is_empty, length, take,
  length-take-le, All, All-take, All-append, All-sort, IsSorted, IsSorted-take, sort, sort-IsSorted,
  Result, ok, err, Error, ◌>>=◌, Ensures, Ensures-bind, Ensures-wrapped, Ensures-any, txt, wrapped,
  arith, if◌then◌else◌, Bool-cases, Option-cases, zero, suc,
}
use dotfs_mcp_server.Ast.{SymbolRecord}
use dotfs_mcp_server.Store.Backend.{found, missing, failed, Backend, Fetched-cases}
use dotfs_mcp_server.Store.Lookup.{
  Filter, Candidate, limit_of, rank, record_less, sort_records, lookup_prefixes, scan_prefixes,
  fetch_record, fetch_records, empty_scan, lookup_view, lookup,
}
use dotfs_mcp_server.Store.Lookup.Order.{record_less_asym}

-- A record that stands in the database, in the repository that the filter names, if it names one.
abbrev pub IsHit : (db : Backend) → Text → db.State → SymbolRecord → Type 0
IsHit db repo s r =
    ((k : Text) × (v : db.Value) × (db.get s k ≡ found v) × (db.unmarshal v ≡ some r))
    × ((repo ≡ []) ⊎ (r.repo_name ≡ repo))

-- No record stands directly behind one that matches the query less exactly.
abbrev pub IsRanked : Text → List SymbolRecord → Type 0
IsRanked query = IsSorted (λ a b. ltb (rank query a) (rank query b))

record_less-rank :
    (query : Text) (x y : SymbolRecord)
    → record_less query y x ≡ false
    → ltb (rank query y) (rank query x) ≡ false
unfolding record_less
record_less-rank query x y h = ground arith

IsSorted-IsRanked :
    (query : Text) (rs : List SymbolRecord) → IsSorted (record_less query) rs → IsRanked query rs
IsSorted-IsRanked query [] h = tt
IsSorted-IsRanked query (x ∷ []) h = tt
IsSorted-IsRanked query (x ∷ y ∷ ys) h =
    (record_less-rank query x y h.0, IsSorted-IsRanked query (y ∷ ys) h.1)

module _ (db : Backend) (repo : Text) (s : db.State) where
  -- The test of the repository filter.
  passes :
      (r : SymbolRecord)
      → (not (is_empty repo) && not (r.repo_name == repo)) ≡ false
      → (repo ≡ []) ⊎ (r.repo_name ≡ repo)
  passes r h = ground arith

  fetch_record-IsHit :
      (c : Candidate) (acc : List SymbolRecord)
      → All (IsHit db repo s) acc
      → Ensures (All (IsHit db repo s)) (fetch_record db repo s c acc)
  unfolding fetch_record
  fetch_record-IsHit c acc h = elim (Fetched-cases (db.get s c.primary)) [
    | inr (inl g) ↦ rw (g, fetch_record) h
    | inr (inr (x, g)) ↦ rw (g, fetch_record) tt
    | inl (v, g) ↦ elim (Option-cases (db.unmarshal v)) [
      | inl u ↦ rw (g, fetch_record) (rw (u, fetch_record) tt)
      | inr (r, u) ↦ elim (Bool-cases (not (is_empty repo) && not (r.repo_name == repo))) [
        | inl b ↦ rw (g, fetch_record) (rw (u, fetch_record) (rw b h))
        | inr b ↦
            let hit : IsHit db repo s r = ((c.primary, v, g, u), passes r b) in
            rw (g, fetch_record)
              (rw (u, fetch_record) (rw b (All-append (IsHit db repo s) acc (r ∷ []) h (hit, tt))))
      ]
    ]
  ]

  fetch_records-IsHit :
      (cands : List Candidate) (acc : List SymbolRecord)
      → All (IsHit db repo s) acc
      → Ensures (All (IsHit db repo s)) (fetch_records db repo s cands acc)
  unfolding fetch_records
  fetch_records-IsHit [] acc h = h
  fetch_records-IsHit (c ∷ cands) acc h =
      Ensures-bind (All (IsHit db repo s)) (All (IsHit db repo s)) (fetch_record db repo s c acc)
        (fetch_records db repo s cands) (fetch_record-IsHit c acc h) (fetch_records-IsHit cands)

module _ (db : Backend) (name : Text) (f : Filter) (s : db.State) where
  abbrev pub IsAnswer : List SymbolRecord → Type 0
  IsAnswer rs =
      (length rs ≤ limit_of f.limit) × All (IsHit db f.repo s) rs × IsRanked (trim_space name) rs

  cut_IsAnswer :
      (rs : List SymbolRecord)
      → All (IsHit db f.repo s) rs
      → IsAnswer (take (limit_of f.limit) (sort_records (trim_space name) rs))
  unfolding sort_records
  cut_IsAnswer rs h =
      let less = record_less (trim_space name) in
      let n = limit_of f.limit in
      (
        length-take-le n (sort less rs),
        All-take (IsHit db f.repo s) n (sort less rs) (All-sort less (IsHit db f.repo s) rs h),
        IsSorted-IsRanked (trim_space name) (take n (sort less rs)) (
            IsSorted-take less n (sort less rs)
              (sort-IsSorted less (record_less_asym (trim_space name)) rs)),
      )

  lookup_view-IsHit : (query : Text) → Ensures (All (IsHit db f.repo s)) (lookup_view db query f s)
  unfolding lookup_view
  lookup_view-IsHit query =
      Ensures-bind (λ _. Unit) (All (IsHit db f.repo s))
        (scan_prefixes db (not (is_empty f.types)) f.exact_only query s
          (lookup_prefixes query f.types) empty_scan)
        (λ scanned. fetch_records db f.repo s scanned.cands []) (Ensures-any _)
        (λ scanned _. fetch_records-IsHit db f.repo s scanned.cands [] tt)

  -- `Lookup` returns at most as many records as the limit says, all of them cached, in the
  -- repository of the filter, and those that match the query more exactly first.
  pub lookup-IsAnswer : Ensures IsAnswer (lookup db name f s)
  unfolding lookup
  lookup-IsAnswer = elim (Bool-cases (is_empty (trim_space name))) [
    | inl b ↦ rw (b, lookup) tt
    | inr b ↦
        rw (b, lookup)
          (Ensures-bind (All (IsHit db f.repo s)) IsAnswer
            (wrapped (txt "lookup symbol") (lookup_view db (trim_space name) f s))
            (λ rs. ok (take (limit_of f.limit) (sort_records (trim_space name) rs)))
            (Ensures-wrapped _ _ (lookup_view db (trim_space name) f s)
              (lookup_view-IsHit (trim_space name)))
            (λ rs h. cut_IsAnswer rs h))
  ]
