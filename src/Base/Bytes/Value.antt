-- ===== src/Base/Bytes/Value.antt =====
-- The number that a row of digits stands for: `%d` and `%08d` can be read back.
use Prim.Native.Nat.{ℕ, zero, suc, ◌+◌, ◌-◌, ◌*◌, ◌/◌, ◌%◌, ◌<◌}
use mathlib.Core.Path.{◌≡◌, refl, sym, ◌∙◌, ap}
use mathlib.Core.List.{List, [], ◌∷◌}
use mathlib.Core.WellFounded.{Acc}
use native.Mathlib.Omega.{arith}
use dotfs_mcp_server.Base.Lists.{length}
use dotfs_mcp_server.Base.Bytes.Decimal.{lt_acc, emit, decimal, zeros, padded}

unfoldable pub value : ℕ → List ℕ → ℕ
value acc [] = acc
value acc (d ∷ s) = value (acc * 10 + (d - 48)) s

value-emit : (n : ℕ) (w : Acc ◌<◌ n) (out : List ℕ) → value 0 (emit n w out) ≡ value n out
unfolding emit value
value-emit n (Acc.intro _ smaller) out =
    grind
      (arith, λ (p : n / 10 < n). value-emit (n / 10) (smaller (n / 10) p) ((48 + n % 10) ∷ out))

value-zeros : (n : ℕ) (s : List ℕ) → value 0 (zeros n s) ≡ value 0 s
unfolding zeros value
value-zeros zero s = refl
value-zeros (suc n) s = value-zeros n s

-- The number of a padded decimal is the number that was printed.
pub value-padded : (width n : ℕ) → value 0 (padded width (decimal n)) ≡ n
unfolding padded decimal
value-padded width n =
    value-zeros (width - length (decimal n)) (decimal n)
    ∙ value-emit n (lt_acc n) []
    ∙ unfold value in refl

value-decimal : (n : ℕ) → value 0 (decimal n) ≡ n
unfolding decimal
value-decimal n = value-emit n (lt_acc n) [] ∙ unfold value in refl

pub decimal-injective : (m n : ℕ) → decimal m ≡ decimal n → m ≡ n
decimal-injective m n e = sym (value-decimal m) ∙ ap (value 0) e ∙ value-decimal n
