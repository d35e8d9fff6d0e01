-- ===== src/Base/Bytes/Runes.antt =====
-- `[]rune(s)`: UTF-8 as Go decodes it. A byte that begins no valid sequence is U+FFFD.
use Prim.Native.Nat.{ℕ, zero, suc, ◌+◌, ◌-◌, ◌*◌}
use mathlib.Core.Path.{◌≡◌, refl}
use mathlib.Core.Bool.{Bool, true, ◌&&◌, not}
use mathlib.Core.List.{List, [], ◌∷◌}
use dotfs_mcp_server.Base.Tests.{leb, if◌then◌else◌, ◌==◌, nat_eq}

abbrev between : ℕ → ℕ → ℕ → Bool
between lo hi c = leb lo c && leb c hi

abbrev bad_rune : ℕ × ℕ
bad_rune = (0xfffd, 0)

-- The lowest second byte behind a first byte, and the highest one.
unfoldable second_lo : ℕ → ℕ
unfolding nat_eq
second_lo c = if c == 0xe0 then 0xa0 else if c == 0xf0 then 0x90 else 0x80

unfoldable second_hi : ℕ → ℕ
unfolding nat_eq
second_hi c = if c == 0xed then 0x9f else if c == 0xf4 then 0x8f else 0xbf

unfoldable two : ℕ → List ℕ → ℕ × ℕ
two c (d ∷ s) = if between 0x80 0xbf d then ((c - 0xc0) * 64 + (d - 0x80), 1) else bad_rune
two c [] = bad_rune

unfoldable three : ℕ → List ℕ → ℕ × ℕ
unfolding second_lo second_hi
three c (d ∷ e ∷ s) =
    if between (second_lo c) (second_hi c) d && between 0x80 0xbf e
    then ((c - 0xe0) * 4096 + (d - 0x80) * 64 + (e - 0x80), 2)
    else bad_rune
three c _ = bad_rune

unfoldable four : ℕ → List ℕ → ℕ × ℕ
unfolding second_lo second_hi
four c (d ∷ e ∷ f ∷ s) =
    if between (second_lo c) (second_hi c) d && between 0x80 0xbf e && between 0x80 0xbf f
    then ((c - 0xf0) * 262144 + (d - 0x80) * 4096 + (e - 0x80) * 64 + (f - 0x80), 3)
    else bad_rune
four c _ = bad_rune

-- The rune that begins with a byte, and how many bytes more it takes.
unfoldable rune_at : ℕ → List ℕ → ℕ × ℕ
unfolding two three four
rune_at c s =
    if leb c 0x7f
    then (c, 0)
    else if between 0xc2 0xdf c
    then two c s
    else if between 0xe0 0xef c
    then three c s
    else if between 0xf0 0xf4 c
    then four c s
    else bad_rune

-- `skip` bytes belong to the rune before.
unfoldable runes_loop : ℕ → List ℕ → List ℕ
unfolding rune_at
runes_loop skip [] = []
runes_loop zero (c ∷ s) = (rune_at c s).0 ∷ runes_loop (rune_at c s).1 s
runes_loop (suc skip) (c ∷ s) = runes_loop skip s

-- `utf8.ValidString`: does every rune stand in a valid sequence?
abbrev is_good : ℕ × ℕ → Bool
unfolding nat_eq
is_good r = not (r.0 == 0xfffd && r.1 == 0)

unfoldable utf8_loop : ℕ → List ℕ → Bool
unfolding rune_at
utf8_loop skip [] = true
utf8_loop zero (c ∷ s) = is_good (rune_at c s) && utf8_loop (rune_at c s).1 s
utf8_loop (suc skip) (c ∷ s) = utf8_loop skip s

unfoldable pub is_utf8 : List ℕ → Bool
unfolding utf8_loop
is_utf8 s = utf8_loop 0 s

unfoldable pub runes : List ℕ → List ℕ
unfolding runes_loop
runes s = runes_loop 0 s

runes_test :
    runes (b'a' ∷ 0xc3 ∷ 0xa9 ∷ 0xe2 ∷ 0x82 ∷ 0xac ∷ 0xff ∷ b'z' ∷ [])
    ≡ b'a' ∷ 0xe9 ∷ 0x20ac ∷ 0xfffd ∷ b'z' ∷ []
unfolding runes
runes_test = refl
