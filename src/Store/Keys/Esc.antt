-- ===== src/Store/Keys/Esc.antt =====
-- internal/ast/store/store.go: `esc` and its inverse.
use dotfs_mcp_server.Base.{
  ℕ, ◌≡◌, refl, ap, ◌∙◌, sym, false, ◌||◌, some, [], ◌∷◌, ◌++◌, Text, txt, nat_eq, bytes_eq,
  contains, has_prefix, cut, occurs, arith, Bool-cases, inl, inr,
}
use dotfs_mcp_server.Store.Keys.{esc, unesc}

-- An escaped component never holds the separator of the keys.
pub contains-esc : (s : Text) → contains (esc s) b':' ≡ false
unfolding esc
contains-esc [] = refl
contains-esc (c ∷ s) = ground (arith, contains-esc s)

-- `s` does not hold the three bytes that stand for an escaped separator.
abbrev pub IsPlain : Text → Type 0
IsPlain s = occurs (txt "%3A") s ≡ false

unesc-hit : (s : Text) → unesc (b'%' ∷ b'3' ∷ b'A' ∷ s) ≡ b':' ∷ unesc s
unfolding unesc
unesc-hit s = refl

unesc-miss :
    (a : ℕ) (s : Text) → has_prefix (txt "%3A") (a ∷ s) ≡ false → unesc (a ∷ s) ≡ a ∷ unesc s
unfolding unesc has_prefix nat_eq
unesc-miss a [] h = refl
unesc-miss a (b ∷ []) h = refl
unesc-miss a (b ∷ c ∷ s) h = ground arith

-- Escaping the tail makes no new escape at the front.
has_prefix-esc :
    (c : ℕ) (s : Text)
    → has_prefix (txt "%3A") (c ∷ s) ≡ false
    → has_prefix (txt "%3A") (c ∷ esc s) ≡ false
unfolding esc has_prefix nat_eq
has_prefix-esc c [] h = h
has_prefix-esc c (x ∷ []) h = ground arith
has_prefix-esc c (x ∷ y ∷ s) h = ground arith

occurs-cons :
    (c : ℕ) (s : Text) → IsPlain (c ∷ s) → (has_prefix (txt "%3A") (c ∷ s) ≡ false) × IsPlain s
unfolding occurs
occurs-cons c s h = elim (Bool-cases (has_prefix (txt "%3A") (c ∷ s))) [
  | inl e ↦ cc
  | inr e ↦ (e, ap (λ b. b || occurs (txt "%3A") s) (sym e) ∙ h)
]

-- On text without "%3A" the two replacements undo one another.
pub unesc-esc : (s : Text) → IsPlain s → unesc (esc s) ≡ s
unfolding esc
unesc-esc [] h = unfold unesc in refl
unesc-esc (c ∷ s) h = ground (
  arith,
  unesc-hit (esc s),
  unesc-miss c (esc s) (has_prefix-esc c s (occurs-cons c s h).0),
  unesc-esc s (occurs-cons c s h).1,
)

-- What stands before the first separator behind an escaped component is the component.
pub cut-esc : (s rest : Text) → cut b':' (esc s ++ (b':' ∷ rest)) ≡ some (esc s, rest)
unfolding esc cut
cut-esc [] rest = refl
cut-esc (c ∷ s) rest = ground (arith, cut-esc s rest)

-- Components without "%3A" are told apart by their escaped forms.
pub esc-injective : (s t : Text) → IsPlain s → IsPlain t → esc s ≡ esc t → s ≡ t
esc-injective s t p q e = sym (unesc-esc s p) ∙ ap unesc e ∙ unesc-esc t q
