-- ===== src/Store/Prune/Laws.antt =====
-- internal/ast/store/store.go: what `PruneRepo` removes, and what it leaves.
use dotfs_mcp_server.Base.{
  ℕ, zero, suc, ◌+◌, ◌≡◌, ◌≤◌, refl, ◌∙◌, true, false, not, ◌&&◌, ◌||◌, ◌⊎◌, inl, inr, Option, none,
  some, List, [], ◌∷◌, ◌++◌, Text, nat_eq, bytes_eq, contains, contains-append, has_prefix, take,
  drop, length, Error, arith, if◌then◌else◌, Bool-cases, Option-cases,
}
use dotfs_mcp_server.Ast.{SymbolRecord}
use dotfs_mcp_server.Store.Keys.{
  sym_prefix, colon, esc, index_keys, name_keys, file_index_key, repo_symbol_prefix,
}
use dotfs_mcp_server.Store.Backend.{missing, Backend, IsLawful, Fetched-cases}
use dotfs_mcp_server.Store.Prune.{
  Stale, stale_entries, delete_all, delete_entries, delete_batch, prune_batches, prune_repo,
}

-- No index key begins like a primary key.
contains-name_keys_of_sym :
    (rec : SymbolRecord) (seen names : List Text) (j : Text)
    → has_prefix sym_prefix j ≡ true
    → contains (name_keys rec seen names) j ≡ false
unfolding name_keys has_prefix
contains-name_keys_of_sym rec seen [] j h = refl
contains-name_keys_of_sym rec seen (n ∷ names) [] h = cc
contains-name_keys_of_sym rec seen (n ∷ names) (c ∷ j) h = ground (
  arith,
  contains-name_keys_of_sym rec seen names (c ∷ j),
  contains-name_keys_of_sym rec (n ∷ seen) names (c ∷ j),
)

pub contains-index_keys_of_sym :
    (rec : SymbolRecord) (j : Text)
    → has_prefix sym_prefix j ≡ true
    → contains (index_keys rec) j ≡ false
unfolding index_keys has_prefix
contains-index_keys_of_sym rec [] h = cc
contains-index_keys_of_sym rec (c ∷ j) h =
    contains-append (name_keys rec [] (rec.name ∷ rec.aliases)) (file_index_key rec ∷ []) (c ∷ j)
    ∙ rw (contains-name_keys_of_sym rec [] (rec.name ∷ rec.aliases) (c ∷ j) h)
        (unfold file_index_key in ground arith)

has_prefix-front : (p q j : Text) → has_prefix (p ++ q) j ≡ true → has_prefix p j ≡ true
unfolding has_prefix
has_prefix-front [] q j h = refl
has_prefix-front (c ∷ p) q [] h = h
has_prefix-front (c ∷ p) q (d ∷ j) h = ground (arith, has_prefix-front p q j)

module _ (db : Backend) (L : IsLawful db) (s : db.State) (p j : Text) where
  listed_prefix : contains (db.keys s p) j ≡ true → has_prefix p j ≡ true
  listed_prefix h = ((L.contains-keys s p j).0 h).0

  -- A key under the prefix that the iterator does not give is not there.
  absent : has_prefix p j ≡ true → contains (db.keys s p) j ≡ false → db.get s j ≡ missing
  absent h e = elim (Fetched-cases (db.get s j)) [
    | inl (v, g) ↦ cc ((L.contains-keys s p j).1 (h, λ m. cc))
    | inr (inl g) ↦ g
    | inr (inr (x, g)) ↦ cc ((L.contains-keys s p j).1 (h, λ m. cc))
  ]

abbrev stale_keys : List Stale → List Text
stale_keys [] = []
stale_keys ((k, r) ∷ es) = k ∷ stale_keys es

contains-take-drop :
    (n : ℕ) (es : List Stale) (j : Text)
    → contains (stale_keys es) j
      ≡ (contains (stale_keys (take n es)) j || contains (stale_keys (drop n es)) j)
contains-take-drop zero es j = refl
contains-take-drop (suc n) [] j = refl
contains-take-drop (suc n) ((k, r) ∷ es) j = ground (arith, contains-take-drop n es j)

length-take-drop : (n : ℕ) (es : List Stale) → length (take n es) + length (drop n es) ≡ length es
length-take-drop zero es = omega arith
length-take-drop (suc n) [] = omega arith
length-take-drop (suc n) (e ∷ es) = omega (arith, length-take-drop n es)

module _ (db : Backend) (L : IsLawful db) where
  get-delete_all :
      (ks : List Text) (s : db.State) (j : Text)
      → db.get (delete_all db ks s) j ≡ (if contains ks j then missing else db.get s j)
  unfolding delete_all
  get-delete_all [] s j = refl
  get-delete_all (k ∷ ks) s j =
      ground (arith, get-delete_all ks (db.delete s k) j, L.get-delete s k j)

  -- Only the listed keys go, among the primary keys.
  get-delete_entries :
      (es : List Stale) (s : db.State) (j : Text)
      → has_prefix sym_prefix j ≡ true
      → db.get (delete_entries db es s) j
        ≡ (if contains (stale_keys es) j then missing else db.get s j)
  unfolding delete_entries
  get-delete_entries [] s j h = refl
  get-delete_entries ((k, none) ∷ es) s j h =
      ground (arith, get-delete_entries es (db.delete s k) j, L.get-delete s k j)
  get-delete_entries ((k, some rec) ∷ es) s j h = ground (
    arith,
    get-delete_entries es (db.delete s k) j,
    get-delete_entries es (delete_all db (index_keys rec) (db.delete s k)) j,
    get-delete_all (index_keys rec) (db.delete s k) j,
    contains-index_keys_of_sym rec j,
    L.get-delete s k j,
  )

  contains-stale_entries :
      (live : List Text) (s : db.State) (ks : List Text) (j : Text)
      → contains (stale_keys (stale_entries db live s ks)) j
        ≡ (contains ks j && not (contains live j))
  unfolding stale_entries
  contains-stale_entries live s [] j = refl
  contains-stale_entries live s (k ∷ ks) j = ground (arith, contains-stale_entries live s ks j)

  -- After the batches without an error, exactly the stale keys are gone, and all are counted. After
  -- an error, the keys that were not stale are as they were.
  abbrev BatchOutcome : List Stale → ℕ → db.State → (ℕ × Option Error) × db.State → Type 0
  BatchOutcome es n s ((m, none), t) =
      (m ≡ n + length es)
      × ((j : Text)
          → has_prefix sym_prefix j ≡ true
          → db.get t j ≡ (if contains (stale_keys es) j then missing else db.get s j))
  BatchOutcome es n s ((m, some e), t) =
      (j : Text)
      → has_prefix sym_prefix j ≡ true
      → contains (stale_keys es) j ≡ false
      → db.get t j ≡ db.get s j

  next_batch :
      (k : ℕ) (es : List Stale) (n : ℕ) (s : db.State) (r : (ℕ × Option Error) × db.State)
      → BatchOutcome (drop k es) (n + length (take k es)) (delete_entries db (take k es) s) r
      → BatchOutcome es n s r
  next_batch k es n s ((m, none), t) (count, gone) = (
    omega (arith, length-take-drop k es),
    λ j h.
        ground (arith, gone j h, get-delete_entries (take k es) s j h, contains-take-drop k es j),
  )
  next_batch k es n s ((m, some e), t) same = λ j h out.
      ground (arith, same j h, get-delete_entries (take k es) s j h, contains-take-drop k es j)

  prune_batches-outcome :
      (fuel : ℕ) (es : List Stale) (n : ℕ) (s : db.State)
      → length es ≤ fuel
      → BatchOutcome es n s (prune_batches db fuel es n s)
  unfolding prune_batches
  prune_batches-outcome fuel [] n s h = (omega arith, λ j p. refl)
  prune_batches-outcome zero (e ∷ es) n s h = absurd (omega arith)
  prune_batches-outcome (suc fuel) (e ∷ es) n s h =
      let batch = take delete_batch (e ∷ es) in
      elim (Option-cases (db.refuses s (delete_entries db batch s))) [
        | inl yes_ ↦
            rw (yes_, prune_batches)
              (next_batch delete_batch (e ∷ es) n s _ (
                prune_batches-outcome fuel (drop delete_batch (e ∷ es)) (n + length batch)
                  (delete_entries db batch s)
                  (omega (arith, length-take-drop delete_batch (e ∷ es)))))
        | inr (x, no_) ↦ rw (no_, prune_batches) (λ j p out. refl)
      ]

  BatchOutcome-kept :
      (es : List Stale) (n : ℕ) (s : db.State) (r : (ℕ × Option Error) × db.State) (j : Text)
      → BatchOutcome es n s r
      → has_prefix sym_prefix j ≡ true
      → contains (stale_keys es) j ≡ false
      → db.get r.1 j ≡ db.get s j
  BatchOutcome-kept es n s ((m, none), t) j h p out = h.1 j p ∙ rw out
  BatchOutcome-kept es n s ((m, some e), t) j h p out = h j p out

  BatchOutcome-gone :
      (es : List Stale) (n : ℕ) (s : db.State) (r : (ℕ × Option Error) × db.State) (j : Text)
      → BatchOutcome es n s r
      → r.0.1 ≡ none
      → has_prefix sym_prefix j ≡ true
      → db.get r.1 j ≡ (if contains (stale_keys es) j then missing else db.get s j)
  BatchOutcome-gone es n s ((m, none), t) j h e p = h.1 j p
  BatchOutcome-gone es n s ((m, some x), t) j h e p = cc

  module _ (repo : Text) (live : List Text) (s : db.State) where
    abbrev stale : List Stale
    stale = stale_entries db live s (db.keys s (repo_symbol_prefix repo))

    outcome : BatchOutcome stale 0 s (prune_repo db repo live s)
    unfolding prune_repo
    outcome = prune_batches-outcome (length stale) stale 0 s (omega arith)

    listed :
        (j : Text)
        → contains (stale_keys stale) j
          ≡ (contains (db.keys s (repo_symbol_prefix repo)) j && not (contains live j))
    listed j = contains-stale_entries live s (db.keys s (repo_symbol_prefix repo)) j

    -- When `PruneRepo` returns no error, of the keys of the repository the live ones are left, with
    -- the values that they had, and no other.
    pub prune_repo_removes :
        (j : Text)
        → (prune_repo db repo live s).0.1 ≡ none
        → has_prefix (repo_symbol_prefix repo) j ≡ true
        → db.get (prune_repo db repo live s).1 j ≡ (if contains live j then db.get s j else missing)
    prune_repo_removes j done mine =
        BatchOutcome-gone stale 0 s (prune_repo db repo live s) j outcome done
          (unfold repo_symbol_prefix in has_prefix-front sym_prefix (esc repo ++ colon) j mine)
        ∙ elim (Bool-cases (contains (db.keys s (repo_symbol_prefix repo)) j)) [
          | inl here ↦ ground (arith, listed j)
          | inr away ↦ ground (arith, listed j, absent db L s (repo_symbol_prefix repo) j mine away)
        ]

    -- Whether `PruneRepo` fails or not, the live keys and the primary keys of the records of other
    -- repositories are as they were.
    pub prune_repo_keeps :
        (j : Text)
        → has_prefix sym_prefix j ≡ true
        → (contains live j ≡ true) ⊎ (has_prefix (repo_symbol_prefix repo) j ≡ false)
        → db.get (prune_repo db repo live s).1 j ≡ db.get s j
    prune_repo_keeps j p out =
        BatchOutcome-kept stale 0 s (prune_repo db repo live s) j outcome p (elim out [
          | inl kept ↦ ground (arith, listed j)
          | inr other ↦ ground (arith, listed j, listed_prefix db L s (repo_symbol_prefix repo) j)
        ])
