-- ===== src/Base/Keys.antt =====
-- The keys of a map, and what holds of all its entries.
use mathlib.Core.Path.{◌≡◌, refl, subst, ◌∙◌}
use mathlib.Core.Bool.{false, ◌||◌}
use mathlib.Core.Logic.{inl, inr}
use mathlib.Core.Option.{some}
use mathlib.Core.List.{List, [], ◌∷◌, ◌++◌}
use native.Mathlib.Omega.{arith}
use dotfs_mcp_server.Base.Tests.{Bool-cases, Eq, ◌==◌, contains}
use dotfs_mcp_server.Base.Lists.{All, Distinct, contains-append}
use dotfs_mcp_server.Base.Maps.{Dict, lookup, insert, erase}

module _ {ℓ} {A : Type ℓ} ⦃e : Eq A⦄ where
  apart_head :
      (x : A) (xs ys : List A) → All (λ y. contains (x ∷ xs) y ≡ false) ys → contains ys x ≡ false
  apart_head x xs [] h = refl
  apart_head x xs (y ∷ ys) h = ground (arith, apart_head x xs ys h.1, h)

  apart_tail :
      (x : A) (xs ys : List A)
      → All (λ y. contains (x ∷ xs) y ≡ false) ys
      → All (λ y. contains xs y ≡ false) ys
  apart_tail x xs [] h = tt
  apart_tail x xs (y ∷ ys) h = (ground (arith, h), apart_tail x xs ys h.1)

  -- Two lists without repetitions that have no element in common
  pub Distinct-append :
      (xs ys : List A)
      → Distinct xs
      → Distinct ys
      → All (λ y. contains xs y ≡ false) ys
      → Distinct (xs ++ ys)
  Distinct-append [] ys h k apart = k
  Distinct-append (x ∷ xs) ys h k apart = (
    contains-append xs ys x ∙ ground (arith, h, apart_head x xs ys apart),
    Distinct-append xs ys h.1 k (apart_tail x xs ys apart),
  )

module _ {ℓ κ} {K : Type ℓ} {V : Type κ} ⦃e : Eq K⦄ where
  abbrev pub keys : Dict K V → List K
  keys [] = []
  keys ((k, v) ∷ m) = k ∷ keys m

  contains-keys-insert :
      (k j : K) (v : V) (m : Dict K V)
      → contains (keys (insert k v m)) j ≡ (j == k || contains (keys m) j)
  unfolding insert
  contains-keys-insert k j v [] = refl
  contains-keys-insert k j v ((i, w) ∷ m) = ground (arith, contains-keys-insert k j v m)

  contains-keys-erase :
      (k j : K) (m : Dict K V) → contains (keys m) j ≡ false → contains (keys (erase k m)) j ≡ false
  unfolding erase
  contains-keys-erase k j [] h = refl
  contains-keys-erase k j ((i, w) ∷ m) h = ground (arith, contains-keys-erase k j m, h)

  pub Distinct-insert :
      (k : K) (v : V) (m : Dict K V) → Distinct (keys m) → Distinct (keys (insert k v m))
  unfolding insert
  Distinct-insert k v [] h = (refl, tt)
  Distinct-insert k v ((i, w) ∷ m) h =
      ground (arith, Distinct-insert k v m h.1, contains-keys-insert k i v m, h)

  pub Distinct-erase : (k : K) (m : Dict K V) → Distinct (keys m) → Distinct (keys (erase k m))
  unfolding erase
  Distinct-erase k [] h = tt
  Distinct-erase k ((i, w) ∷ m) h =
      ground (arith, Distinct-erase k m h.1, contains-keys-erase k i m, h)

  pub All-insert :
      (P : K × V → Type 0) (k : K) (v : V) (m : Dict K V)
      → P (k, v)
      → All P m
      → All P (insert k v m)
  unfolding insert
  All-insert P k v [] p h = (p, tt)
  All-insert P k v ((i, w) ∷ m) p h = elim (Bool-cases (k == i)) [
    | inl is ↦ rw is (p, h.1)
    | inr is ↦ rw is (h.0, All-insert P k v m p h.1)
  ]

  -- What is left behind a removal has other keys.
  pub All-erase :
      (P Q : K × V → Type 0) (k : K) (m : Dict K V)
      → ((i : K) (w : V) → P (i, w) → k == i ≡ false → Q (i, w))
      → All P m
      → All Q (erase k m)
  unfolding erase
  All-erase P Q k [] f h = tt
  All-erase P Q k ((i, w) ∷ m) f h = elim (Bool-cases (k == i)) [
    | inl is ↦ rw is (All-erase P Q k m f h.1)
    | inr is ↦ rw is (f i w h.0 is, All-erase P Q k m f h.1)
  ]

  pub All-lookup :
      (P : K × V → Type 0) (k : K) (v : V) (m : Dict K V) → All P m → lookup k m ≡ some v → P (k, v)
  unfolding lookup
  All-lookup P k v [] h is = cc
  All-lookup P k v ((i, w) ∷ m) h is = elim (Bool-cases (k == i)) [
    | inl e ↦ subst P (let q : (i, w) ≡ (k, v) = ground (arith, is, e) in q) h.0
    | inr e ↦ All-lookup P k v m h.1 (ground (arith, is, e))
  ]
