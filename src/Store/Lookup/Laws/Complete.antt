-- ===== src/Store/Lookup/Laws/Complete.antt =====
-- internal/ast/store/store.go: a record that was put is found again by each of its names, and a
-- name that a newer record has lost still leads to it.
use dotfs_mcp_server.Base.{
  ℕ, ◌≡◌, ◌<◌, refl, sym, ap, Bool, ◌∙◌, true, false, not, some, List, [], ◌∷◌, ◌++◌, append_assoc,
  Text, bytes_eq, contains, contains-append, trim_space, is_empty, length, take, take-all, Any,
  Any-sort, sort, ok, ◌>>=◌, Ensures, Ensures-bind, Ensures-wrapped, Ensures-ok, wrapped, txt,
  arith, has_prefix,
}
use dotfs_mcp_server.Ast.{SymbolRecord, blank}
use dotfs_mcp_server.Ast.Fingerprint.{fingerprint}
use dotfs_mcp_server.Store.Keys.{
  esc, name_idx_prefix, name_index_key, index_keys, name_keys, file_index_key, primary_key,
}
use dotfs_mcp_server.Store.Keys.Esc.{IsPlain}
use dotfs_mcp_server.Store.Keys.Layout.{matched_name-name_index_key, contains-index_keys}
use dotfs_mcp_server.Store.Put.{put_symbol}
use dotfs_mcp_server.Store.Put.Laws.{returned-IsStored, put-readable}
use dotfs_mcp_server.Store.Backend.{found, Backend, IsUtf8, IsLawful}
use dotfs_mcp_server.Store.Lookup.{
  Filter, limit_of, record_less, sort_records, scan_keys, fetch_records, empty_scan,
  lookup_prefixes, scan_prefixes, lookup_view, lookup,
}
use dotfs_mcp_server.Store.Lookup.Laws.Scan.{Has, scan_keys-target, fetch_records-target}

is_empty-blank : (n : Text) → blank n ≡ false → is_empty n ≡ false
unfolding blank trim_space
is_empty-blank [] h = cc
is_empty-blank (c ∷ n) h = refl

has_prefix-append : (p r : Text) → has_prefix p (p ++ r) ≡ true
unfolding has_prefix
has_prefix-append [] r = refl
has_prefix-append (c ∷ p) r = ground (arith, has_prefix-append p r)

-- Each name of a record that is not blank has an entry in the name index.
contains-name_keys :
    (rec : SymbolRecord) (n : Text) (seen names : List Text)
    → blank n ≡ false
    → contains seen n ≡ false
    → contains names n ≡ true
    → contains (name_keys rec seen names) (name_index_key n rec) ≡ true
unfolding name_keys
contains-name_keys rec n seen [] b u h = cc
contains-name_keys rec n seen (m ∷ names) b u h =
    ground (arith, contains-name_keys rec n seen names, contains-name_keys rec n (m ∷ seen) names)

pub contains-name_index_key :
    (rec : SymbolRecord) (n : Text)
    → blank n ≡ false
    → contains (rec.name ∷ rec.aliases) n ≡ true
    → contains (index_keys rec) (name_index_key n rec) ≡ true
unfolding index_keys
contains-name_index_key rec n b h =
    contains-append (name_keys rec [] (rec.name ∷ rec.aliases)) (file_index_key rec ∷ []) _
    ∙ rw (contains-name_keys rec n [] (rec.name ∷ rec.aliases) b refl h)

-- A name whose entry points to a readable record.
module _ (db : Backend) (L : IsLawful db) (t : db.State) (n : Text) (rec r : SymbolRecord)
    (v : db.Value) (plain : IsPlain n) (filled : blank n ≡ false)
    (entry-found : db.get t (name_index_key n rec) ≡ found (db.of_text (primary_key rec)))
    (key-found : db.get t (primary_key rec) ≡ found v) (readable : db.unmarshal v ≡ some r)
    (P : SymbolRecord → Type 0) (good : P r) where
  abbrev entry : Text
  entry = name_index_key n rec

  has_prefix-entry : has_prefix (name_idx_prefix ++ esc n) entry ≡ true
  unfolding name_index_key
  has_prefix-entry =
      rw (← append_assoc name_idx_prefix (esc n)) (has_prefix-append (name_idx_prefix ++ esc n) _)

  contains-entry : contains (db.keys t (name_idx_prefix ++ esc n)) entry ≡ true
  contains-entry =
      (L.contains-keys t (name_idx_prefix ++ esc n) entry).1
        (has_prefix-entry, λ e. cc (entry-found))

  lookup_view-Any :
      (f : Filter) → f.types ≡ [] → f.repo ≡ [] → Ensures (Any P) (lookup_view db n f t)
  unfolding lookup_view lookup_prefixes scan_prefixes
  lookup_view-Any f types repo =
      let ks = db.keys t (name_idx_prefix ++ esc n) in
      rw (types, lookup_view, lookup_prefixes, scan_prefixes)
        (rw (repo, ap (λ ts. not (is_empty ts)) types)
          (Ensures-bind (Has (primary_key rec)) (Any P)
            (scan_keys db false f.exact_only n t ks empty_scan >>= λ acc. ok acc)
            (λ scanned. fetch_records db [] t scanned.cands [])
            (Ensures-bind (Has (primary_key rec)) (Has (primary_key rec))
              (scan_keys db false f.exact_only n t ks empty_scan) (λ acc. ok acc)
              (scan_keys-target db false f.exact_only n t (primary_key rec) entry
                (db.of_text (primary_key rec)) (matched_name-name_index_key n rec plain) entry-found
                (L.to_text-of_text (primary_key rec)) ks empty_scan (λ q e. cc) contains-entry)
              (λ acc h. h))
            (λ scanned h.
              fetch_records-target db t P (primary_key rec) v r key-found readable good
                scanned.cands [] h)))

  cut-Any :
      (m : ℕ) (rs : List SymbolRecord)
      → Any P rs
      → length (take m (sort_records n rs)) < m
      → Any P (take m (sort_records n rs))
  unfolding sort_records
  cut-Any m rs h e = rw (take-all m (sort (record_less n) rs) e) (Any-sort (record_less n) P rs h)

  lookup-entry :
      (name : Text) (f : Filter) (rs : List SymbolRecord)
      → trim_space name ≡ n
      → f.types ≡ []
      → f.repo ≡ []
      → lookup db name f t ≡ ok rs
      → length rs < limit_of f.limit
      → Any P rs
  unfolding lookup
  lookup-entry name f rs trimmed types repo returned short =
      Ensures-ok (λ r. length r < limit_of f.limit → Any P r) (lookup db name f t) rs
        (rw (trimmed, lookup)
          (rw (is_empty-blank n filled, lookup)
            (Ensures-bind (Any P) (λ r. length r < limit_of f.limit → Any P r)
              (wrapped (txt "lookup symbol") (lookup_view db n f t))
              (λ r. ok (take (limit_of f.limit) (sort_records n r)))
              (Ensures-wrapped (Any P) _ _ (lookup_view-Any f types repo))
              (λ r h e. cut-Any (limit_of f.limit) r h e))))
        returned short

module _ (db : Backend) (L : IsLawful db) where
  -- After a run of `PutSymbol` that returned no error, on a record in valid UTF-8, a lookup of any of
  -- its names that is trimmed, not blank and holds no "%3A", exact or not, over all kinds and
  -- repositories returns a record with its fingerprint, unless the result reaches the limit.
  pub lookup-put :
      (rec : SymbolRecord) (s t : db.State) (k : Text) (changed : Bool) (n name : Text) (f : Filter)
      (rs : List SymbolRecord)
      → IsUtf8 rec
      → put_symbol db rec s ≡ (ok (k, changed), t)
      → contains (rec.name ∷ rec.aliases) n ≡ true
      → blank n ≡ false
      → IsPlain n
      → trim_space name ≡ n
      → f.types ≡ []
      → f.repo ≡ []
      → lookup db name f t ≡ ok rs
      → length rs < limit_of f.limit
      → Any (λ r. fingerprint db.digest r ≡ fingerprint db.digest rec) rs
  lookup-put rec s t k changed n name f rs valid run named filled plain trimmed types repo returned
        short =
      let stored = (returned-IsStored db L rec s k changed t run).2 in
      let (v, r, g, u, same) = put-readable db L rec s t k changed valid run in
      lookup-entry db L t n rec r v plain filled
        (stored.cells (name_index_key n rec) ∙ rw (contains-name_index_key rec n filled named)) g u
        (λ r. fingerprint db.digest r ≡ fingerprint db.digest rec) same name f rs trimmed types repo
        returned short

  -- Two runs of `PutSymbol` with the same primary key leave the index entries of the names that only
  -- the older record has: a lookup of such a name still returns a record with the fingerprint of the
  -- newer one. This is so for a newer record in valid UTF-8, a name that is trimmed, not blank and
  -- holds no "%3A", over all kinds and repositories, unless the result reaches the limit.
  pub lookup-lost_name :
      (old new : SymbolRecord) (s t u : db.State) (k j : Text) (b c : Bool) (n name : Text)
      (f : Filter) (rs : List SymbolRecord)
      → IsUtf8 new
      → put_symbol db old s ≡ (ok (k, b), t)
      → put_symbol db new t ≡ (ok (j, c), u)
      → primary_key new ≡ primary_key old
      → contains (old.name ∷ old.aliases) n ≡ true
      → contains (index_keys new) (name_index_key n old) ≡ false
      → blank n ≡ false
      → IsPlain n
      → trim_space name ≡ n
      → f.types ≡ []
      → f.repo ≡ []
      → lookup db name f u ≡ ok rs
      → length rs < limit_of f.limit
      → Any (λ r. fingerprint db.digest r ≡ fingerprint db.digest new) rs
  lookup-lost_name old new s t u k j b c n name f rs valid first second same_key named lost filled
        plain trimmed types repo returned short =
      let before = (returned-IsStored db L old s k b t first).2 in
      let after = (returned-IsStored db L new t j c u second).2 in
      let (v, r, g, readable, same) = put-readable db L new t u j c valid second in
      let listed = contains-name_index_key old n filled named in
      lookup-entry db L u n old r v plain filled
        (ground (
          arith,
          listed,
          contains-index_keys old new,
          after.cells (name_index_key n old),
          before.cells (name_index_key n old),
        ))
        (rw (sym same_key) g) readable (λ r. fingerprint db.digest r ≡ fingerprint db.digest new)
        same name f rs trimmed types repo returned short
