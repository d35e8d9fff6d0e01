-- ===== src/Base/Int.antt =====
-- Go's `int`, for the values that may be negative. Sums stay far below 2 ^ 63.
use Prim.Native.Nat.{ℕ, suc, ◌+◌, ◌-◌}
use mathlib.Core.Bool.{Bool, true, false, ◌&&◌}
use mathlib.Core.List.{List, ◌∷◌}
use dotfs_mcp_server.Base.Tests.{ltb, leb, if◌then◌else◌}
use dotfs_mcp_server.Base.Bytes.{decimal}

-- `negsuc n` is -(n + 1).
pub data ℤ : Type 0 where
  pos : ℕ → ℤ
  negsuc : ℕ → ℤ

-- a < b
unfoldable pub ltz : ℤ → ℤ → Bool
ltz (pos a) (pos b) = ltb a b
ltz (pos a) (negsuc b) = false
ltz (negsuc a) (pos b) = true
ltz (negsuc a) (negsuc b) = ltb b a

unfoldable pub eqz : ℤ → ℤ → Bool
eqz (pos a) (pos b) = leb a b && leb b a
eqz (negsuc a) (negsuc b) = leb a b && leb b a
eqz _ _ = false

-- a + n
unfoldable pub addz : ℤ → ℕ → ℤ
addz (pos a) n = pos (a + n)
addz (negsuc a) n = if ltb a n then pos (n - a - 1) else negsuc (a - n)

-- a - n
unfoldable pub subz : ℤ → ℕ → ℤ
subz (pos a) n = if leb n a then pos (a - n) else negsuc (n - a - 1)
subz (negsuc a) n = negsuc (a + n)

-- `%d`
unfoldable pub decimalz : ℤ → List ℕ
unfolding decimal
decimalz (pos n) = decimal n
decimalz (negsuc n) = b'-' ∷ decimal (suc n)
