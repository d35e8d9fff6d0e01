-- ===== src/Config/Laws.antt =====
-- internal/config/config.go and cmd/main.go: what a configuration that was loaded can be used for.
use mathlib.Core.Path.{subst}
use dotfs_mcp_server.Base.{
  ◌≡◌, inl, inr, refl, sym, true, false, not, ◌&&◌, [], ◌∷◌, ◌++◌, Text, txt, ltz, trim_space,
  is_empty, pos, Result, ok, err, wrapped, >>=-eq-ok, wrapped-eq-ok, reject_if-eq-ok, if◌then◌else◌,
  Bool-cases, Result-cases, Ensures, Ensures-bind, Ensures-next, Ensures-ok, Ensures-wrapped,
  nat_eq,
}
use dotfs_mcp_server.Utils.Paths.{is_abs, clean, join_path, slash}
use dotfs_mcp_server.Utils.Safe.{not-eq-false}
use dotfs_mcp_server.Utils.Files.{FileSystem, Info}
use dotfs_mcp_server.Config.Values.{Environment, env_string, env_bool, env_duration, env_int64}
use dotfs_mcp_server.Config.Load.{
  Config, validate, abs_path, joined, configured, read_config, load, boot, default_cache_dir,
}

-- What `Validate` checks.
pub record IsUsable (fs : FileSystem) (c : Config) : Type 0 where
  pub info : Info
  pub readable : fs.stat c.workspace_root ≡ ok info
  pub directory : info.is_dir ≡ true
  pub file_size : ltz (pos 0) c.max_file_size ≡ true
  pub interval : ltz (pos 0) c.gc_interval ≡ true
  pub address : (c.enable_http && is_empty (trim_space c.http_addr)) ≡ false

validate-IsUsable : (fs : FileSystem) (c : Config) → validate fs c ≡ ok tt → IsUsable fs c
unfolding validate
validate-IsUsable fs c h =
    let (info, e1, h1) = >>=-eq-ok (wrapped _ (fs.stat c.workspace_root)) _ h in
    let (e2, h2) = reject_if-eq-ok (not info.is_dir) _ _ h1 in
    let (e3, h3) = reject_if-eq-ok (not (ltz (pos 0) c.max_file_size)) _ _ h2 in
    let (e4, h4) = reject_if-eq-ok (not (ltz (pos 0) c.gc_interval)) _ _ h3 in
    let (e5, h5) = reject_if-eq-ok (c.enable_http && is_empty (trim_space c.http_addr)) _ _ h4 in
    record {
      info = info;
      readable = wrapped-eq-ok _ _ e1;
      directory = not-eq-false _ e2;
      file_size = not-eq-false _ e3;
      interval = not-eq-false _ e4;
      address = e5;
    }

abbrev pub IsAbs : Text → Type 0
IsAbs path = is_abs path ≡ true

clean-IsAbs : (p : Text) → IsAbs p → IsAbs (clean p)
unfolding clean is_abs nat_eq
clean-IsAbs p h = rw (h) refl

append-IsAbs : (p q : Text) → IsAbs p → IsAbs (p ++ q)
unfolding is_abs
append-IsAbs [] q h = cc
append-IsAbs (c ∷ p) q h = h

join_path-IsAbs : (wd path : Text) → IsAbs wd → IsAbs (join_path wd path)
unfolding join_path is_abs
join_path-IsAbs [] path h = cc
join_path-IsAbs (c ∷ wd) [] h = clean-IsAbs (c ∷ wd) h
join_path-IsAbs (c ∷ wd) (d ∷ path) h =
    clean-IsAbs ((c ∷ wd) ++ slash ++ (d ∷ path)) (append-IsAbs (c ∷ wd) (slash ++ (d ∷ path)) h)

IsAbs-filled : (p : Text) → IsAbs p → is_empty p ≡ false
unfolding is_abs
IsAbs-filled [] h = cc
IsAbs-filled (c ∷ p) h = refl

-- `os.Getwd` answers a rooted path.
abbrev pub HasRootedDir : Environment → Type 0
HasRootedDir env = Ensures IsAbs env.getwd

module _ (env : Environment) (rooted : HasRootedDir env) where
  joined-IsAbs :
      (path : Text) (wd : Result Text) → Ensures IsAbs wd → Ensures IsAbs (joined env path wd)
  joined-IsAbs path (err e) h = tt
  joined-IsAbs path (ok wd) h = join_path-IsAbs wd path h

  abs_path-IsAbs : (path : Text) → Ensures IsAbs (abs_path env path)
  unfolding abs_path
  abs_path-IsAbs path = elim (Bool-cases (is_abs path)) [
    | inl e ↦
        subst (λ b. Ensures IsAbs (if b then ok (clean path) else joined env path env.getwd))
          (sym e) (clean-IsAbs path e)
    | inr e ↦
        subst (λ b. Ensures IsAbs (if b then ok (clean path) else joined env path env.getwd))
          (sym e) (joined-IsAbs path env.getwd rooted)
  ]

  resolved : Text → Text → Text → Result Text
  resolved m key fallback = wrapped m (abs_path env (env_string env key fallback))

  resolved-IsAbs : (m key fallback : Text) → Ensures IsAbs (resolved m key fallback)
  unfolding resolved
  resolved-IsAbs m key fallback =
      Ensures-wrapped IsAbs m (abs_path env (env_string env key fallback)) (abs_path-IsAbs _)

  -- Both directories of a configuration that was read are rooted.
  abbrev HasRootedDirs : Config → Type 0
  HasRootedDirs c = IsAbs c.workspace_root × IsAbs c.cache_dir

  read_config-HasRootedDirs : Ensures HasRootedDirs (read_config env)
  unfolding read_config resolved
  read_config-HasRootedDirs = Ensures-next _ (env_int64 env _ _) _ λ v1.
      Ensures-next _ (env_bool env _ _) _ λ v2. Ensures-next _ (env_bool env _ _) _ λ v3.
        Ensures-next _ (env_duration env _ _) _ λ v4. Ensures-next _ (env_duration env _ _) _ λ v5.
          Ensures-next _ (env_duration env _ _) _ λ v6.
            Ensures-bind IsAbs HasRootedDirs
              (resolved (txt "resolve DOTFS_WORKSPACE_ROOT") (txt "DOTFS_WORKSPACE_ROOT") []) _
              (resolved-IsAbs _ _ _)
              λ root is_rooted.
                Ensures-bind IsAbs HasRootedDirs
                  (resolved (txt "resolve DOTFS_CACHE_DB") (txt "DOTFS_CACHE_DB") default_cache_dir)
                  (λ cache. ok (configured env v1 v2 v3 v4 v5 v6 root cache)) (resolved-IsAbs _ _ _)
                  (λ cache too. (is_rooted, too))

  -- A configuration that `Load` returns without an error has rooted directories, its workspace is a
  -- directory that can be read, its file size limit and its collection interval are positive, and
  -- the management API, if it is on, has an address.
  pub load-IsUsable :
      (fs : FileSystem) (c : Config)
      → load env fs ≡ ok c
      → IsAbs c.workspace_root × IsAbs c.cache_dir × IsUsable fs c
  unfolding load
  load-IsUsable fs c h =
      let (read, e1, h1) = >>=-eq-ok (read_config env) _ h in
      let (checked, e2, h2) = >>=-eq-ok (validate fs read) _ h1 in
      let same : read ≡ c = cc in
      let dirs = Ensures-ok HasRootedDirs (read_config env) c read_config-HasRootedDirs (cc) in
      (dirs.0, dirs.1, validate-IsUsable fs c (cc))

  -- Without `-workspace`, `main` goes on with what `Load` gives and never asks for the flag: the
  -- workspace root is not empty then, whatever the environment holds.
  pub boot-unset : (fs : FileSystem) → boot env fs [] ≡ load env fs
  unfolding boot
  boot-unset fs = elim (Result-cases (load env fs)) [
    | inl (e, is) ↦ rw (is, boot)
    | inr (c, is) ↦
        rw (is, boot) (rw (IsAbs-filled c.workspace_root (load-IsUsable fs c is).0) refl)
  ]
