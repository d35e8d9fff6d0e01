-- ===== src/Utils/Below.antt =====
-- Paths that `filepath.Rel` finds inside an absolute root.
use mathlib.Core.Logic.{if_pos, if_neg}
use dotfs_mcp_server.Base.{
  ◌≡◌, refl, sym, ap, ◌∙◌, Bool, true, false, not, ◌⊎◌, inl, inr, List, [], ◌∷◌, ◌++◌, append-nil,
  Text, bytes_eq, join, Result, ok, err, Error, if◌then◌else◌, nat_eq,
}
use dotfs_mcp_server.Utils.Paths.{
  is_abs, clean, elements, strip_common, way, rel_clean, rel, dot, dot_dot, slash,
}

-- What is common goes in front of both paths again.
strip_common-append :
    (bs ts : List Text)
    → (common : List Text) × (bs ≡ common ++ (strip_common bs ts).0)
      × (ts ≡ common ++ (strip_common bs ts).1)
unfolding strip_common
strip_common-append [] ts = ([], refl, refl)
strip_common-append (b ∷ bs) [] = ([], refl, refl)
strip_common-append (b ∷ bs) (t ∷ ts) = elim (bytes_eq.dec b t) [
  | no d ↦ ([], rw (if_neg _ d) refl, rw (if_neg _ d) refl)
  | yes e ↦
      let (common, p, q) = strip_common-append bs ts in
      (
        b ∷ common,
        rw (if_pos _ e) (ap (λ l. b ∷ l) p),
        rw (if_pos _ e) (ap (λ c. c ∷ ts) (sym e) ∙ ap (λ l. b ∷ l) q),
      )
]

is_abs-dot : is_abs dot ≡ false
unfolding is_abs nat_eq
is_abs-dot = refl

-- A test on what `filepath.Rel` gives that a failure and every way up meet.
module _ (leaves : Result Text → Bool) (on_error : (e : Error) → leaves (err e) ≡ true)
    (on_up : (es : List Text) → leaves (ok (join slash (dot_dot ∷ es))) ≡ true) where
  stays-way : (bs ts : List Text) → leaves (way (bs, ts)) ≡ false → bs ≡ []
  unfolding way
  stays-way [] ts h = refl
  stays-way (b ∷ bs) ts h = elim (bytes_eq.dec b dot_dot) [
    | yes e ↦ let clash : true ≡ false = sym (on_error _) ∙ rw (if_pos _ e) at h in cc
    | no e ↦ let clash : true ≡ false = sym (on_up _) ∙ rw (if_neg _ e) at h in cc
  ]

  reached :
      (same : Bool) (e : Error) (w : List Text × List Text)
      → leaves (if not same then err e else way w) ≡ false
      → w.0 ≡ []
  reached true e (bs, ts) h = stays-way bs ts h
  reached false e w h = let clash : true ≡ false = sym (on_error e) ∙ h in cc

  rel_clean-stays :
      (b t : Text)
      → is_abs b ≡ true
      → leaves (rel_clean b t) ≡ false
      → (t ≡ b) ⊎ ((strip_common (elements b) (elements t)).0 ≡ [])
  unfolding rel_clean
  rel_clean-stays b t abs h = elim (bytes_eq.dec t b) [
    | yes same ↦ inl same
    | no other ↦ elim (bytes_eq.dec b dot) [
      | yes e ↦ let clash : true ≡ false = sym abs ∙ ap is_abs e ∙ is_abs-dot in cc
      | no e ↦ inr (reached _ _ _ (rw (if_neg _ other, if_neg _ e) at h))
    ]
  ]

  -- The path is the root's with more elements behind it.
  pub rel-stays :
      (root child : Text)
      → is_abs (clean root) ≡ true
      → leaves (rel root child) ≡ false
      → (below : List Text) × (elements (clean child) ≡ elements (clean root) ++ below)
  unfolding rel
  rel-stays root child abs h =
      let b = elements (clean root) in
      let t = elements (clean child) in
      let (common, p, q) = strip_common-append b t in
      elim (rel_clean-stays (clean root) (clean child) abs h) [
        | inl same ↦ ([], ap elements same ∙ sym (append-nil b))
        | inr e ↦ (
          (strip_common b t).1,
          q
              ∙ ap (λ c. c ++ (strip_common b t).1)
                  (sym (p ∙ ap (λ r. common ++ r) e ∙ append-nil common)),
        )
      ]
