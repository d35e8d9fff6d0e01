-- ===== src/Store/Lookup/Laws/Scan.antt =====
-- internal/ast/store/store.go: the scan of an index makes every key that it points to a candidate,
-- and every candidate's record is fetched.
use mathlib.Core.Path.{subst}
use mathlib.Core.Logic.{if_neg}
use dotfs_mcp_server.Base.{
  ◌≡◌, refl, sym, Bool, true, false, not, ◌&&◌, ◌||◌, ◌⊎◌, inl, inr, some, List, [], ◌∷◌, ◌++◌,
  Text, ◌==◌, bytes_eq, contains, Any, Any-append_left, Any-append_right, Ensures, Ensures-bind,
  Ensures-any, arith, Bool-cases, Option-cases,
}
use dotfs_mcp_server.Ast.{SymbolRecord}
use dotfs_mcp_server.Store.Keys.{matched_name}
use dotfs_mcp_server.Store.Backend.{found, Backend, Fetched-cases}
use dotfs_mcp_server.Store.Lookup.{
  Candidate, Scan, scan_key, scan_keys, fetch_record, fetch_records,
}

-- The primary keys of the candidates.
abbrev pub primaries : List Candidate → List Text
primaries [] = []
primaries (c ∷ cs) = c.primary ∷ primaries cs

contains-primaries :
    (cs : List Candidate) (c : Candidate) (p : Text)
    → contains (primaries (cs ++ (c ∷ []))) p ≡ (contains (primaries cs) p || p == c.primary)
contains-primaries [] c p = ground arith
contains-primaries (d ∷ cs) c p = ground (arith, contains-primaries cs c p)

-- `seen` holds nothing but the keys of candidates.
abbrev Seen : Scan → Type 0
Seen acc = (q : Text) → contains acc.seen q ≡ true → contains (primaries acc.cands) q ≡ true

-- `p` is the key of a candidate.
abbrev pub Has : Text → Scan → Type 0
Has p acc = contains (primaries acc.cands) p ≡ true

abbrev grown : Text → Text → Scan → Scan
grown q m acc = record {
  seen = q ∷ acc.seen;
  cands = acc.cands ++ (record { primary = q; matched = m } ∷ []);
}

Seen-grown : (q m : Text) (acc : Scan) → Seen acc → Seen (grown q m acc)
Seen-grown q m acc h r e =
    ground (arith, contains-primaries acc.cands (record { primary = q; matched = m }) r, h r)

Has-grown : (p q m : Text) (acc : Scan) → (Has p acc ⊎ (p ≡ q)) → Has p (grown q m acc)
Has-grown p q m acc h =
    ground (arith, contains-primaries acc.cands (record { primary = q; matched = m }) p)

module _ (db : Backend) (typed exact : Bool) (query : Text) (s : db.State) where
  -- The scan of a key leaves the candidates alone or adds one.
  abbrev OneMore : Scan → Scan → Type 0
  OneMore acc b = (b ≡ acc) ⊎ ((q : Text) × (m : Text) × (b ≡ grown q m acc))

  scan_key-OneMore :
      (k : Text) (acc : Scan) → Ensures (OneMore acc) (scan_key db typed exact query s k acc)
  unfolding scan_key
  scan_key-OneMore k acc = elim (Option-cases (matched_name k typed)) [
    | inl e ↦ rw (e, scan_key) (inl refl)
    | inr (m, e) ↦ elim (Bool-cases (exact && not (m == query))) [
      | inl t ↦ rw (e, scan_key) (rw t (inl refl))
      | inr t ↦ elim (Fetched-cases (db.get s k)) [
        | inr (inl g) ↦ rw (e, scan_key) (rw t (rw (g, scan_key) (inl refl)))
        | inr (inr (x, g)) ↦ rw (e, scan_key) (rw t (rw (g, scan_key) tt))
        | inl (v, g) ↦ elim (Bool-cases (contains acc.seen (db.to_text v))) [
          | inl c ↦ rw (e, scan_key) (rw t (rw (g, scan_key) (rw c (inl refl))))
          | inr c ↦ rw (e, scan_key) (rw t (rw (g, scan_key) (rw c (inr (db.to_text v, m, refl)))))
        ]
      ]
    ]
  ]

  OneMore-Seen : (acc b : Scan) → Seen acc → OneMore acc b → Seen b
  OneMore-Seen acc b h (inl e) = rw e h
  OneMore-Seen acc b h (inr (q, m, e)) = rw e (Seen-grown q m acc h)

  OneMore-Has : (p : Text) (acc b : Scan) → Has p acc → OneMore acc b → Has p b
  OneMore-Has p acc b h (inl e) = rw e h
  OneMore-Has p acc b h (inr (q, m, e)) = rw e (Has-grown p q m acc (inl h))

  scan_keys-Has :
      (p : Text) (ks : List Text) (acc : Scan)
      → Has p acc
      → Ensures (Has p) (scan_keys db typed exact query s ks acc)
  unfolding scan_keys
  scan_keys-Has p [] acc h = h
  scan_keys-Has p (k ∷ ks) acc h =
      Ensures-bind (OneMore acc) (Has p) (scan_key db typed exact query s k acc)
        (scan_keys db typed exact query s ks) (scan_key-OneMore k acc)
        (λ b o. scan_keys-Has p ks b (OneMore-Has p acc b h o))

  module _ (p k : Text) (v : db.Value) (e : matched_name k typed ≡ some query)
      (g : db.get s k ≡ found v) (points : db.to_text v ≡ p) where
    -- The scan of an index key of the queried name makes its primary key a candidate.
    scan_key-target :
        (acc : Scan) → Seen acc → Ensures (Has p) (scan_key db typed exact query s k acc)
    unfolding scan_key
    scan_key-target acc h =
        let off : (exact && not (query == query)) ≡ false = ground arith in
        elim (Bool-cases (contains acc.seen (db.to_text v))) [
          | inl c ↦
              rw (e, scan_key)
                (rw off
                  (rw (g, scan_key) (rw c (subst (λ t. Has t acc) points (h (db.to_text v) c)))))
          | inr c ↦
              rw (e, scan_key)
                (rw off (
                  rw (g, scan_key)
                    (rw c (Has-grown p (db.to_text v) query acc (inr (sym points))))))
        ]

    pub scan_keys-target :
        (ks : List Text) (acc : Scan)
        → Seen acc
        → contains ks k ≡ true
        → Ensures (Has p) (scan_keys db typed exact query s ks acc)
    unfolding scan_keys
    scan_keys-target [] acc h i = cc
    scan_keys-target (j ∷ ks) acc h i = elim (bytes_eq.dec k j) [
      | yes same ↦
          Ensures-bind (Has p) (Has p) (scan_key db typed exact query s j acc)
            (scan_keys db typed exact query s ks) (rw (sym same) (scan_key-target acc h))
            (scan_keys-Has p ks)
      | no other ↦
          Ensures-bind (OneMore acc) (Has p) (scan_key db typed exact query s j acc)
            (scan_keys db typed exact query s ks) (scan_key-OneMore j acc)
            (λ b o. scan_keys-target ks b (OneMore-Seen acc b h o) (rw (if_neg _ other) at i))
    ]

module _ (db : Backend) (s : db.State) (P : SymbolRecord → Type 0) where
  fetch_record-Any :
      (c : Candidate) (acc : List SymbolRecord)
      → Any P acc
      → Ensures (Any P) (fetch_record db [] s c acc)
  unfolding fetch_record
  fetch_record-Any c acc h = elim (Fetched-cases (db.get s c.primary)) [
    | inr (inl g) ↦ rw (g, fetch_record) h
    | inr (inr (x, g)) ↦ rw (g, fetch_record) tt
    | inl (v, g) ↦ elim (Option-cases (db.unmarshal v)) [
      | inl u ↦ rw (g, fetch_record) (rw (u, fetch_record) tt)
      | inr (r, u) ↦ rw (g, fetch_record) (rw (u, fetch_record) (Any-append_left P acc (r ∷ []) h))
    ]
  ]

  fetch_records-Any :
      (cands : List Candidate) (acc : List SymbolRecord)
      → Any P acc
      → Ensures (Any P) (fetch_records db [] s cands acc)
  unfolding fetch_records
  fetch_records-Any [] acc h = h
  fetch_records-Any (c ∷ cands) acc h =
      Ensures-bind (Any P) (Any P) (fetch_record db [] s c acc) (fetch_records db [] s cands)
        (fetch_record-Any c acc h) (fetch_records-Any cands)

  module _ (p : Text) (v : db.Value) (r : SymbolRecord) (g : db.get s p ≡ found v)
      (u : db.unmarshal v ≡ some r) (good : P r) where
    -- The record under a candidate's key is among those that are fetched.
    pub fetch_records-target :
        (cands : List Candidate) (acc : List SymbolRecord)
        → contains (primaries cands) p ≡ true
        → Ensures (Any P) (fetch_records db [] s cands acc)
    unfolding fetch_records fetch_record
    fetch_records-target [] acc h = cc
    fetch_records-target (c ∷ cands) acc h = elim (bytes_eq.dec p c.primary) [
      | yes same ↦ rw (sym same) (
          rw (g, fetch_record)
            (rw (u, fetch_record)
              (fetch_records-Any cands (acc ++ (r ∷ []))
                (Any-append_right P acc (r ∷ []) (inl good)))))
      | no other ↦
          Ensures-bind (λ _. Unit) (Any P) (fetch_record db [] s c acc)
            (fetch_records db [] s cands) (Ensures-any _)
            (λ b _. fetch_records-target cands b (rw (if_neg _ other) at h))
    ]
