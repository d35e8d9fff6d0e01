-- ===== src/Base/Total.antt =====
-- `sort.Slice` by a total order: the result does not depend on the order of what is sorted.
use mathlib.Core.Path.{◌≡◌, refl, ap}
use mathlib.Core.Bool.{Bool, true, false}
use mathlib.Core.List.{List, [], ◌∷◌, foldr, Perm}
use mathlib.Core.List.Perm
use mathlib.Core.List
use native.Mathlib.Omega.{arith}
use dotfs_mcp_server.Base.Tests.{if◌then◌else◌}
use dotfs_mcp_server.Base.Sort.{insert_sorted, sort}
use dotfs_mcp_server.Base.Tests.{nat_eq}
use dotfs_mcp_server.Base.Bytes.{Text, less}

-- A strict order in which two elements that are not ordered are the same.
pub record IsTotal {ℓ} {A : Type ℓ} (lt : A → A → Bool) : Type ℓ where
  pub asym : (x y : A) → lt x y ≡ true → lt y x ≡ false
  pub between : (x y z : A) → lt z y ≡ true → lt z x ≡ false → lt x y ≡ true
  pub connected : (x y : A) → lt x y ≡ false → lt y x ≡ false → x ≡ y

module _ {ℓ} {A : Type ℓ} (lt : A → A → Bool) (total : IsTotal lt) where
  open total use {asym, between, connected}

  swap_heads :
      (x y : A) (zs : List A)
      → (if lt y x then y ∷ x ∷ zs else x ∷ y ∷ zs) ≡ (if lt x y then x ∷ y ∷ zs else y ∷ x ∷ zs)
  swap_heads x y zs = ground (arith, asym x y, connected x y)

  insert_sorted_comm :
      (x y : A) (zs : List A)
      → insert_sorted lt x (insert_sorted lt y zs) ≡ insert_sorted lt y (insert_sorted lt x zs)
  unfolding insert_sorted
  insert_sorted_comm x y [] = swap_heads x y []
  insert_sorted_comm x y (z ∷ zs) =
      ground
        (arith, insert_sorted_comm x y zs, asym x y, connected x y, between x y z, between y x z)

  sort-foldr : (xs : List A) → sort lt xs ≡ foldr (insert_sorted lt) [] xs
  unfolding sort
  sort-foldr [] = refl
  sort-foldr (x ∷ xs) = ap (insert_sorted lt x) (sort-foldr xs)

  pub sort-eq_of_perm : IsSet A → {xs ys : List A} → Perm xs ys → sort lt xs ≡ sort lt ys
  sort-eq_of_perm set {xs} {ys} p =
      rw (sort-foldr xs, sort-foldr ys)
        (Perm.foldr-eq (List.is_set set) (insert_sorted lt) insert_sorted_comm p [])

less_asym : (s t : Text) → less s t ≡ true → less t s ≡ false
unfolding less
less_asym [] [] h = refl
less_asym [] (d ∷ t) h = refl
less_asym (c ∷ s) [] h = cc
less_asym (c ∷ s) (d ∷ t) h = ground (arith, less_asym s t)

less_between : (s t u : Text) → less u t ≡ true → less u s ≡ false → less s t ≡ true
unfolding less
less_between [] [] [] h k = cc
less_between [] [] (e ∷ u) h k = cc
less_between [] (d ∷ t) u h k = refl
less_between (c ∷ s) [] [] h k = cc
less_between (c ∷ s) [] (e ∷ u) h k = cc
less_between (c ∷ s) (d ∷ t) [] h k = cc
less_between (c ∷ s) (d ∷ t) (e ∷ u) h k = ground (arith, less_between s t u)

less_connected : (s t : Text) → less s t ≡ false → less t s ≡ false → s ≡ t
unfolding less
less_connected [] [] h k = refl
less_connected [] (d ∷ t) h k = cc
less_connected (c ∷ s) [] h k = cc
less_connected (c ∷ s) (d ∷ t) h k = ground (arith, less_connected s t)

pub less-IsTotal : IsTotal less
less-IsTotal = record { asym = less_asym; between = less_between; connected = less_connected }
