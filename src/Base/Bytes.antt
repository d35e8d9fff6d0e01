-- ===== src/Base/Bytes.antt =====
-- Text as Go has it: a list of bytes. The functions of `strings`, `bytes`, `fmt` and `strconv`
-- that the program calls.
mod Decimal
mod Value
mod Runes
unfoldable pub use Decimal.*
unfoldable pub use Value.*
unfoldable pub use Runes.*
use Prim.Native.Nat.{ℕ, zero, suc, ◌+◌, ◌-◌}
use Prim.Native.Char.{code}
use Prim.Native.String.{String}
use mathlib.Core.Path.{◌≡◌, refl}
use mathlib.Core.Bool.{Bool, true, false, ◌&&◌, ◌||◌}
use mathlib.Core.Option.{Option, none, some}
use mathlib.Core.List.{List, [], ◌∷◌, ◌++◌, map, reverse}
use native.Mathlib.Omega.{arith}
use dotfs_mcp_server.Base.Tests.{ltb, leb, if◌then◌else◌, ◌==◌, nat_eq, bytes_eq, Bool-cases}
use dotfs_mcp_server.Base.Lists.{length, drop, take}

abbrev pub Text : Type 0
Text = List ℕ

-- The bytes of an ASCII literal.
abbrev pub txt : String → Text
txt String.[] = []
txt (String.◌∷◌ c s) = code c ∷ txt s

-- `strings.HasPrefix`, prefix first.
unfoldable pub has_prefix : Text → Text → Bool
has_prefix [] s = true
has_prefix (c ∷ p) [] = false
has_prefix (c ∷ p) (d ∷ s) = c == d && has_prefix p s

-- `strings.HasSuffix`, suffix first.
unfoldable pub has_suffix : Text → Text → Bool
unfolding has_prefix
has_suffix p s = has_prefix (reverse p) (reverse s)

-- `strings.TrimPrefix`, prefix first.
unfoldable pub trim_prefix : Text → Text → Text
unfolding has_prefix
trim_prefix p s = if has_prefix p s then drop (length p) s else s

-- `strings.TrimSuffix`, suffix first.
unfoldable pub trim_suffix : Text → Text → Text
unfolding has_suffix
trim_suffix p s = if has_suffix p s then take (length s - length p) s else s

-- `strings.Contains`, the part first.
unfoldable pub occurs : Text → Text → Bool
unfolding has_prefix
occurs p [] = has_prefix p []
occurs p (c ∷ s) = has_prefix p (c ∷ s) || occurs p s

-- What is left of a text that begins with white space, by `unicode.IsSpace` on its first rune:
-- the ASCII ones, U+0085, U+00A0, U+1680, U+2000 to U+200A, U+2028, U+2029, U+202F, U+205F, U+3000.
abbrev ascii_space : ℕ → Bool
ascii_space c = (leb 9 c && leb c 13) || c == 32

abbrev two_byte_space : ℕ → ℕ → Bool
two_byte_space a b = a == 0xc2 && (b == 0x85 || b == 0xa0)

abbrev three_byte_space : ℕ → ℕ → ℕ → Bool
three_byte_space a b c =
    (a == 0xe1 && b == 0x9a && c == 0x80)
    || (a == 0xe2
        && b == 0x80
        && ((leb 0x80 c && leb c 0x8a) || c == 0xa8 || c == 0xa9 || c == 0xaf))
    || (a == 0xe2 && b == 0x81 && c == 0x9f)
    || (a == 0xe3 && b == 0x80 && c == 0x80)

-- `strings.TrimLeftFunc(s, unicode.IsSpace)`
unfoldable pub trim_left : Text → Text
unfolding nat_eq
trim_left [] = []
trim_left (a ∷ []) = if ascii_space a then [] else a ∷ []
trim_left (a ∷ b ∷ []) =
    let one = trim_left (b ∷ []) in
    if ascii_space a then one else if two_byte_space a b then [] else a ∷ b ∷ []
trim_left (a ∷ b ∷ c ∷ s) =
    let one = trim_left (b ∷ c ∷ s) in
    let two = trim_left (c ∷ s) in
    let three = trim_left s in
    if ascii_space a
    then one
    else if two_byte_space a b
    then two
    else if three_byte_space a b c
    then three
    else a ∷ b ∷ c ∷ s

-- The same from the right, over the reversed bytes.
unfoldable pub trim_left_reversed : Text → Text
unfolding nat_eq
trim_left_reversed [] = []
trim_left_reversed (a ∷ []) = if ascii_space a then [] else a ∷ []
trim_left_reversed (a ∷ b ∷ []) =
    let one = trim_left_reversed (b ∷ []) in
    if ascii_space a then one else if two_byte_space b a then [] else a ∷ b ∷ []
trim_left_reversed (a ∷ b ∷ c ∷ s) =
    let one = trim_left_reversed (b ∷ c ∷ s) in
    let two = trim_left_reversed (c ∷ s) in
    let three = trim_left_reversed s in
    if ascii_space a
    then one
    else if two_byte_space b a
    then two
    else if three_byte_space c b a
    then three
    else a ∷ b ∷ c ∷ s

-- `strings.TrimSpace`
unfoldable pub trim_space : Text → Text
unfolding trim_left trim_left_reversed
trim_space s = reverse (trim_left_reversed (reverse (trim_left s)))

-- `strings.ToLower`: ASCII, and the two runes outside ASCII whose lower case is an ASCII letter,
-- U+0130 (i) and U+212A (k). Other runes outside ASCII go to runes outside ASCII, which no
-- comparison of the program matches, and are left as they are.
unfoldable pub to_lower : Text → Text
unfolding nat_eq
to_lower [] = []
to_lower (a ∷ []) = (if leb b'A' a && leb a b'Z' then a + 32 else a) ∷ []
to_lower (a ∷ b ∷ []) =
    let one = to_lower (b ∷ []) in
    if a == 0xc4 && b == 0xb0
    then b'i' ∷ []
    else (if leb b'A' a && leb a b'Z' then a + 32 else a) ∷ one
to_lower (a ∷ b ∷ c ∷ s) =
    let one = to_lower (b ∷ c ∷ s) in
    let two = to_lower (c ∷ s) in
    let three = to_lower s in
    if a == 0xc4 && b == 0xb0
    then b'i' ∷ two
    else if a == 0xe2 && b == 0x84 && c == 0xaa
    then b'k' ∷ three
    else (if leb b'A' a && leb a b'Z' then a + 32 else a) ∷ one

-- `strings.Split(s, string(sep))`: never empty.
abbrev push : ℕ → List Text → List Text
push c [] = (c ∷ []) ∷ []
push c (w ∷ ws) = (c ∷ w) ∷ ws

unfoldable pub split : ℕ → Text → List Text
unfolding nat_eq
split sep [] = [] ∷ []
split sep (c ∷ s) = let rest = split sep s in if c == sep then [] ∷ rest else push c rest

-- `strings.Join(parts, sep)`
unfoldable pub join : Text → List Text → Text
join sep [] = []
join sep (w ∷ []) = w
join sep (w ∷ v ∷ ws) = w ++ sep ++ join sep (v ∷ ws)

-- The part before the first `sep`, and the part behind it. `none` if there is no `sep`.
unfoldable pub cut : ℕ → Text → Option (Text × Text)
unfolding nat_eq
cut sep [] = none
cut sep (c ∷ s) =
    let rest = cut sep s in
    if c == sep then some ([], s) else elim rest [ none ↦ none | some (a, b) ↦ some (c ∷ a, b) ]

-- `a < b` on strings.
unfoldable pub less : Text → Text → Bool
unfolding nat_eq
less [] [] = false
less [] (d ∷ t) = true
less (c ∷ s) [] = false
less (c ∷ s) (d ∷ t) = if c == d then less s t else ltb c d

trim_test : trim_space (txt "  a b\n " ++ 0xe2 ∷ 0x80 ∷ 0x83 ∷ []) ≡ txt "a b"
unfolding trim_space
trim_test = refl

split_test : join (txt ", ") (split b'/' (txt "a//b")) ≡ txt "a, , b"
unfolding split join
split_test = refl

lower_test : to_lower (txt "IncO" ++ 0xe2 ∷ 0x84 ∷ 0xaa ∷ []) ≡ txt "incok"
unfolding to_lower
lower_test = refl
