-- ===== src/Utils/Paths.antt =====
-- The functions of path/filepath that the program calls, on Unix paths.
use mathlib.Core.List.{reverse}
use dotfs_mcp_server.Base.{
  Bool, true, false, not, ◌&&◌, ◌||◌, List, [], ◌∷◌, ◌++◌, Text, txt, ◌==◌, nat_eq, bytes_eq, split,
  join, is_empty, Result, ok, err, message, if◌then◌else◌, ◌≡◌, refl, map,
}

abbrev pub slash : Text
slash = b'/' ∷ []

abbrev pub dot : Text
dot = b'.' ∷ []

abbrev pub dot_dot : Text
dot_dot = b'.' ∷ b'.' ∷ []

-- `filepath.IsAbs`
unfoldable pub is_abs : Text → Bool
unfolding nat_eq
is_abs [] = false
is_abs (c ∷ p) = c == b'/'

-- One element of the path, on the elements so far, the last one first.
unfoldable pub clean_step : Bool → Text → List Text → List Text
clean_step rooted e [] =
    if e == [] || e == dot then [] else if e == dot_dot && rooted then [] else e ∷ []
clean_step rooted e (top ∷ out) =
    if e == [] || e == dot
    then top ∷ out
    else if e == dot_dot && not (top == dot_dot)
    then out
    else e ∷ top ∷ out

unfoldable pub clean_loop : Bool → List Text → List Text → List Text
unfolding clean_step
clean_loop rooted [] out = reverse out
clean_loop rooted (e ∷ es) out = clean_loop rooted es (clean_step rooted e out)

-- `filepath.Clean`
unfoldable pub clean : Text → Text
unfolding clean_loop split join is_abs
clean p =
    let out = clean_loop (is_abs p) (split b'/' p) [] in
    if is_abs p then slash ++ join slash out else if is_empty out then dot else join slash out

-- `filepath.Join` of two elements; empty elements are ignored.
unfoldable pub join_path : Text → Text → Text
unfolding clean
join_path a b =
    if is_empty a && is_empty b
    then []
    else if is_empty a
    then clean b
    else if is_empty b
    then clean a
    else clean (a ++ slash ++ b)

-- The elements of a clean path.
unfoldable pub elements : Text → List Text
unfolding split nat_eq
elements [] = []
elements (c ∷ p) =
    if c == b'/' then (if is_empty p then [] else split b'/' p) else split b'/' (c ∷ p)

-- What is left of two paths behind their common elements.
unfoldable pub strip_common : List Text → List Text → List Text × List Text
strip_common [] ts = ([], ts)
strip_common (b ∷ bs) [] = (b ∷ bs, [])
strip_common (b ∷ bs) (t ∷ ts) =
    let rest = strip_common bs ts in if b == t then rest else (b ∷ bs, t ∷ ts)

-- The way up from what is left of the base, and down to what is left of the target.
unfoldable pub way : List Text × List Text → Result Text
unfolding join
way ([], ts) = ok (join slash ts)
way (b ∷ bs, ts) =
    if b == dot_dot
    then err (message (txt "Rel: can't make path relative"))
    else ok (join slash (dot_dot ∷ (map (λ _. dot_dot) bs ++ ts)))

abbrev pub same_bool : Bool → Bool → Bool
same_bool true b = b
same_bool false b = not b

-- `filepath.Rel` on clean paths.
abbrev pub base_of : Text → Text
base_of b = if b == dot then [] else b

unfoldable pub rel_clean : Text → Text → Result Text
rel_clean b t =
    if t == b
    then ok dot
    else if not (same_bool (is_abs (base_of b)) (is_abs t))
    then err (message (txt "Rel: can't make path relative"))
    else way (strip_common (elements (base_of b)) (elements t))

-- `filepath.Rel(base, target)`
unfoldable pub rel : Text → Text → Result Text
rel base target = rel_clean (clean base) (clean target)

-- `filepath.Ext`: the scan goes from the end; `acc` is what it has passed.
unfoldable pub ext_loop : Text → Text → Text
unfolding nat_eq
ext_loop [] acc = []
ext_loop (c ∷ s) acc =
    let more = ext_loop s (c ∷ acc) in
    if c == b'/' then [] else if c == b'.' then b'.' ∷ acc else more

unfoldable pub ext : Text → Text
unfolding ext_loop
ext p = ext_loop (reverse p) []

clean_test : clean (txt "/a//b/../c/./d/..") ≡ txt "/a/c"
unfolding clean bytes_eq
clean_test = refl

clean_up_test : clean (txt "../a/../../b") ≡ txt "../../b"
unfolding clean bytes_eq
clean_up_test = refl

rel_test : rel (txt "/w/a") (txt "/w/b/x.go") ≡ ok (txt "../b/x.go")
unfolding rel rel_clean clean elements strip_common way is_abs bytes_eq
rel_test = refl

ext_test : ext (txt "/w/a.b/x.tar.gz") ≡ txt ".gz"
unfolding ext
ext_test = refl
