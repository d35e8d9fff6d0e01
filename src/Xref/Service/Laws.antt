-- ===== src/Xref/Service/Laws.antt =====
-- internal/xref/service.go: what every answer keeps to, and the file that a query is about.
use dotfs_mcp_server.Base.{
  ℕ, ◌≡◌, refl, ap, sym, ◌∙◌, Bool, true, false, ◌++◌, List, [], ◌∷◌, Text, ◌==◌, bytes_eq, nat_eq,
  leb, ltb, length, join, has_prefix, trim_space, Result, ok, err, wrapped, >>=-eq-ok,
  wrapped-eq-ok, reject_if-eq-ok, Ensures, Ensures-bind, Ensures-any, Bool-cases, inl, inr, arith,
  if◌then◌else◌, length-map, length-take,
}
use dotfs_mcp_server.Utils.Files.{FileSystem}
use dotfs_mcp_server.Utils.Paths.{is_abs, clean, elements, join_path, rel, slash, dot_dot}
use dotfs_mcp_server.Utils.Below.{rel-stays}
use dotfs_mcp_server.Lsp.Protocol.{is_method_not_found}
use dotfs_mcp_server.Xref.Source.{Cache}
use dotfs_mcp_server.Xref.Compact.{Service, compact_locations, decode_locations}
use dotfs_mcp_server.Xref.Compact.Laws.{compact_locations_lem, distinct_places}
use dotfs_mcp_server.Xref.Service.{Provider, Place, Target, call}
use dotfs_mcp_server.Xref.Service.Resolve.{resolve, resolve_in_repo, outside, escapes}
use dotfs_mcp_server.Xref.Service.Queries.{
  ReferenceResult, ImplementationResult, find_references, implementations, compact_implementations,
}

join-escapes : (es : List Text) → outside (ok (join slash (dot_dot ∷ es))) ≡ true
unfolding escapes join has_prefix nat_eq
join-escapes [] = ground arith
join-escapes (e ∷ es) = ground arith

-- The file that a query is about lies inside the real directory of the repository, if that is
-- absolute.
pub resolve_in_repo_inside :
    (fs : FileSystem) (repo_dir rel_path abs rel : Text)
    → ((real : Text) → fs.eval_symlinks repo_dir ≡ ok real → is_abs (clean real) ≡ true)
    → resolve_in_repo fs repo_dir rel_path ≡ ok (abs, rel)
    → (real : Text) × (below : List Text) × (fs.eval_symlinks repo_dir ≡ ok real)
      × (elements (clean abs) ≡ elements (clean real) ++ below)
unfolding resolve_in_repo
resolve_in_repo_inside fs repo_dir rel_path abs path absolute h =
    let (filled, h1) = reject_if-eq-ok (trim_space rel_path == []) _ _ h in
    let (relative, h2) = reject_if-eq-ok (is_abs (trim_space rel_path)) _ _ h1 in
    let (within, h3) = reject_if-eq-ok (escapes (clean (trim_space rel_path))) _ _ h2 in
    let (resolved, e4, h4) =
      >>=-eq-ok (wrapped _ (fs.eval_symlinks (join_path repo_dir (clean (trim_space rel_path))))) _
        h3 in
    let (real, e5, h5) = >>=-eq-ok (wrapped _ (fs.eval_symlinks repo_dir)) _ h4 in
    let (stays, h6) = reject_if-eq-ok (outside (rel real resolved)) _ _ h5 in
    let is_real = wrapped-eq-ok _ _ e5 in
    let same : resolved ≡ abs = cc in
    let (below, e) =
      rel-stays outside (λ e. refl) join-escapes real resolved (absolute real is_real) stays in
    (real, below, is_real, ap (λ p. elements (clean p)) (sym same) ∙ e)

-- As many hits as the limit and the total allow, and the mark of a cut just when some are left out.
pub record IsCapped {A : Type 0} (limit : ℕ) (kept : List A) (total : ℕ) (truncated : Bool)
    : Type 0 where
  pub filled : length kept ≡ (if leb limit total then limit else total)
  pub marked : truncated ≡ ltb limit total

pub IsCapped-cut :
    {A : Type 0} (limit total : ℕ) (kept : List A)
    → length kept ≡ (if leb limit total then limit else total)
    → IsCapped limit (if total == 0 then [] else kept) total (ltb (length kept) total)
IsCapped-cut limit total kept h = record { filled = ground (arith, h); marked = ground (arith, h) }

-- Nothing is kept, and nothing is left out.
pub IsCapped-none : {A : Type 0} (limit : ℕ) → IsCapped {A = A} limit [] 0 false
IsCapped-none limit = record { filled = ground arith; marked = ground arith }

pub length-compact_locations :
    (s : Service) (locs : List _) (src : Cache) (named : Bool)
    → length (compact_locations s locs src named).0.0 ≡ (
        if leb s.limit (compact_locations s locs src named).0.1
        then s.limit
        else (compact_locations s locs src named).0.1)
length-compact_locations s locs src named =
    let (total, kept) = compact_locations_lem s locs src named in
    sym (length-map _ (compact_locations s locs src named).0.0)
    ∙ ap length kept
    ∙ length-take s.limit (distinct_places s locs [])
    ∙ ap (λ n. if leb s.limit n then s.limit else n) (sym total)

abbrev pub ReferencesCapped : ℕ → ReferenceResult → Type 0
ReferencesCapped limit r = IsCapped limit r.references r.total_references r.truncated

-- An answer of `FindReferences` holds as many references as the limit and its total allow, and says
-- that it is cut just when it leaves some out.
pub find_references-IsCapped :
    (s : Service) (provider : Provider) (alive : Bool) (place : Place) (include_declaration : Bool)
    → Ensures
        (ReferencesCapped s.limit)
        (find_references s provider alive place include_declaration)
unfolding find_references
find_references-IsCapped s provider alive place include_declaration =
    Ensures-bind (λ _. Unit) _ (resolve s provider place) _ (Ensures-any (resolve s provider place))
      (λ t _.
        Ensures-bind (λ _. Unit) _ (call alive _) _ (Ensures-any (call alive _))
          (λ locs _. IsCapped-cut s.limit _ _ (length-compact_locations s locs t.src false)))

abbrev pub ImplementationsCapped : ℕ → ImplementationResult → Type 0
ImplementationsCapped limit r = IsCapped limit r.implementations r.total_implementations r.truncated

compact_implementations-IsCapped :
    (s : Service) (t : Target) (answer : Result Text)
    → Ensures (ImplementationsCapped s.limit) (compact_implementations s t answer)
compact_implementations-IsCapped s t (err e) = elim (Bool-cases (is_method_not_found e)) [
  | inl unsupported ↦ rw (unsupported, compact_implementations) (IsCapped-none s.limit)
  | inr other ↦ rw (other, compact_implementations) tt
]
compact_implementations-IsCapped s t (ok raw) =
    Ensures-bind (λ _. Unit) _ (decode_locations s raw) _ (Ensures-any (decode_locations s raw))
      (λ locs _. IsCapped-cut s.limit _ _ (length-compact_locations s locs t.src true))

-- An answer of `Implementations` holds as many hits as the limit and its total allow, and says that
-- it is cut just when it leaves some out, also where the server has no such method.
pub implementations-IsCapped :
    (s : Service) (provider : Provider) (alive : Bool) (place : Place)
    → Ensures (ImplementationsCapped s.limit) (implementations s provider alive place)
unfolding implementations
implementations-IsCapped s provider alive place =
    Ensures-bind (λ _. Unit) _ (resolve s provider place) _ (Ensures-any (resolve s provider place))
      (λ t _. compact_implementations-IsCapped s t (call alive _))
