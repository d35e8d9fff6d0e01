-- ===== src/Base/Bytes/Decimal.antt =====
-- `%d` and `%08d` of `fmt`.
use Prim.Native.Nat.{ℕ, zero, suc, ◌+◌, ◌-◌, ◌/◌, ◌%◌, ◌<◌}
use mathlib.Core.Path.{◌≡◌, refl}
use mathlib.Core.List.{List, [], ◌∷◌}
use mathlib.Core.Logic.{dite}
use mathlib.Core.WellFounded.{Acc}
use native.Mathlib.Omega.{arith}
use native.Mathlib.Decide.{dec_lt}
use dotfs_mcp_server.Base.Lists.{length}

Acc-below : (k n : ℕ) → n < k → Acc ◌<◌ n
Acc-below zero n h = elim h [ ]
Acc-below (suc k) n h = Acc.intro n (λ m hm. Acc-below k m (omega arith))

unfoldable pub lt_acc : (n : ℕ) → Acc ◌<◌ n
unfolding Acc-below
lt_acc n = Acc-below (suc n) n (omega arith)

pub tenth_lt : {n : ℕ} → 9 < n → n / 10 < n
tenth_lt h = omega arith

-- The digits of `n`, in front of `out`; the lowest digit is found first.
unfoldable pub emit : (n : ℕ) → Acc ◌<◌ n → List ℕ → List ℕ
unfolding dec_lt
emit n (Acc.intro _ smaller) out =
    dite (dec_lt 9 n) (λ h. emit (n / 10) (smaller (n / 10) (tenth_lt h)) ((48 + n % 10) ∷ out))
      (λ _. (48 + n) ∷ out)

-- `%d` of a number that is not negative.
unfoldable pub decimal : ℕ → List ℕ
unfolding emit lt_acc
decimal n = emit n (lt_acc n) []

-- Zeros in front, up to a width.
unfoldable pub zeros : ℕ → List ℕ → List ℕ
zeros zero s = s
zeros (suc n) s = 48 ∷ zeros n s

unfoldable pub padded : ℕ → List ℕ → List ℕ
unfolding zeros
padded width s = zeros (width - length s) s

decimal_test : padded 8 (decimal 4096) ≡ 48 ∷ 48 ∷ 48 ∷ 48 ∷ 52 ∷ 48 ∷ 57 ∷ 54 ∷ []
unfolding padded decimal
decimal_test = refl
