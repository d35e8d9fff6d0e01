-- ===== src/Capabilities/Order.antt =====
-- internal/capabilities/capabilities.go: the order of the entries is total, so sorting forgets the
-- order in which Go walks a map.
use mathlib.Core.List.{Perm}
use dotfs_mcp_server.Base.{
  ℕ, ◌≡◌, refl, ap, true, false, List, [], ◌∷◌, Text, txt, nat_eq, bytes_eq, arith, sort, IsTotal,
  less-IsTotal, sort-eq_of_perm, Dict, map, join,
}
use dotfs_mcp_server.Capabilities.{entry_less, render_entry, symbol_breakdown, language_stack}

entry_less_asym : (x y : Text × ℕ) → entry_less x y ≡ true → entry_less y x ≡ false
unfolding entry_less
entry_less_asym (k, n) (j, m) h = ground (arith, less-IsTotal.asym k j)

entry_less_between :
    (x y z : Text × ℕ) → entry_less z y ≡ true → entry_less z x ≡ false → entry_less x y ≡ true
unfolding entry_less
entry_less_between (k, n) (j, m) (i, l) h h' = ground (arith, less-IsTotal.between k j i)

entry_less_connected : (x y : Text × ℕ) → entry_less x y ≡ false → entry_less y x ≡ false → x ≡ y
unfolding entry_less
entry_less_connected (k, n) (j, m) h h' = ground (arith, less-IsTotal.connected k j)

entry_less-IsTotal : IsTotal entry_less
entry_less-IsTotal = record {
  asym = entry_less_asym;
  between = entry_less_between;
  connected = entry_less_connected;
}

Entry-set : IsSet (Text × ℕ)
Entry-set = hlevel

-- The empty map needs no case of its own.
rendered : Text → Dict Text ℕ → Text
rendered unit m = join (txt ", ") (map (render_entry unit) (sort entry_less m))

rendered-eq_of_perm :
    (unit : Text) {m n : Dict Text ℕ} → Perm m n → rendered unit m ≡ rendered unit n
unfolding rendered
rendered-eq_of_perm unit p =
    ap (λ (es : List (Text × ℕ)). join (txt ", ") (map (render_entry unit) es))
      (sort-eq_of_perm entry_less entry_less-IsTotal Entry-set p)

symbol_breakdown-rendered : (m : Dict Text ℕ) → symbol_breakdown m ≡ rendered [] m
unfolding symbol_breakdown rendered
symbol_breakdown-rendered [] = refl
symbol_breakdown-rendered (e ∷ m) = refl

language_stack-rendered : (m : Dict Text ℕ) → language_stack m ≡ rendered (txt " symbols") m
unfolding language_stack rendered
language_stack-rendered [] = refl
language_stack-rendered (e ∷ m) = refl

pub symbol_breakdown-eq_of_perm :
    {m n : Dict Text ℕ} → Perm m n → symbol_breakdown m ≡ symbol_breakdown n
symbol_breakdown-eq_of_perm {m} {n} p =
    rw (symbol_breakdown-rendered m, symbol_breakdown-rendered n) (rendered-eq_of_perm [] p)

pub language_stack-eq_of_perm : {m n : Dict Text ℕ} → Perm m n → language_stack m ≡ language_stack n
language_stack-eq_of_perm {m} {n} p =
    rw (language_stack-rendered m, language_stack-rendered n)
      (rendered-eq_of_perm (txt " symbols") p)
