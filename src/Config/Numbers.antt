-- ===== src/Config/Numbers.antt =====
-- internal/config/config.go: a number that is printed with `%d` is read back.
use mathlib.Core.WellFounded.{Acc}
use dotfs_mcp_server.Base.{
  ℕ, suc, ◌+◌, ◌/◌, ◌%◌, ◌<◌, ◌≡◌, refl, ap, ◌∙◌, true, false, some, [], ◌∷◌, Text, nat_eq, ℤ, pos,
  negsuc, decimal, decimalz, emit, lt_acc, arith, is_empty, trim_space, ok,
}
use dotfs_mcp_server.Config.Values.{
  parse_digits, parse_unsigned, in_range, int64_bound, parse_int64, signed, Environment, set_value,
  env_int64,
}

parse_digits-emit :
    (n : ℕ) (w : Acc ◌<◌ n) (out : Text) → parse_digits 0 (emit n w out) ≡ parse_digits n out
unfolding emit parse_digits
parse_digits-emit n (Acc.intro _ smaller) out = grind (
  arith,
  λ (p : n / 10 < n). parse_digits-emit (n / 10) (smaller (n / 10) p) ((48 + n % 10) ∷ out),
)

emit-filled : (n : ℕ) (w : Acc ◌<◌ n) (out : Text) → is_empty (emit n w out) ≡ false
unfolding emit
emit-filled n (Acc.intro _ smaller) out =
    grind
      (arith, λ (p : n / 10 < n). emit-filled (n / 10) (smaller (n / 10) p) ((48 + n % 10) ∷ out))

pub parse_digits-decimal : (n : ℕ) → parse_digits 0 (decimal n) ≡ some n
unfolding decimal
parse_digits-decimal n = parse_digits-emit n (lt_acc n) [] ∙ unfold parse_digits in refl

-- A row of digits has no sign in front.
parse_int64-digits :
    (t : Text) (n : ℕ)
    → is_empty t ≡ false
    → parse_digits 0 t ≡ some n
    → parse_int64 t ≡ signed false (some n)
unfolding parse_int64 parse_digits
parse_int64-digits [] n h e = cc
parse_int64-digits (c ∷ s) n h e = ground (arith, e)

parse_unsigned-digits :
    (t : Text) (n : ℕ) → is_empty t ≡ false → parse_digits 0 t ≡ some n → parse_unsigned t ≡ some n
unfolding parse_unsigned
parse_unsigned-digits [] n h e = cc
parse_unsigned-digits (c ∷ s) n h e = e

pub decimal-filled : (n : ℕ) → is_empty (decimal n) ≡ false
unfolding decimal
decimal-filled n = emit-filled n (lt_acc n) []

-- The numbers of an int64
abbrev pub InRange : ℤ → Type 0
InRange (pos n) = n < int64_bound
InRange (negsuc n) = n < int64_bound

in_range-pos : (n : ℕ) → n < int64_bound → in_range false n ≡ some (pos n)
unfolding in_range
in_range-pos n h = ground (arith, h)

in_range-negsuc : (n : ℕ) → n < int64_bound → in_range true (suc n) ≡ some (negsuc n)
unfolding in_range
in_range-negsuc n h = ground (arith, h)

parse_int64-minus : (t : Text) → parse_int64 (b'-' ∷ t) ≡ signed true (parse_unsigned t)
unfolding parse_int64
parse_int64-minus t = refl

decimalz-pos : (n : ℕ) → decimalz (pos n) ≡ decimal n
unfolding decimalz
decimalz-pos n = refl

decimalz-negsuc : (n : ℕ) → decimalz (negsuc n) ≡ b'-' ∷ decimal (suc n)
unfolding decimalz
decimalz-negsuc n = refl

parse_int64-decimalz : (z : ℤ) → InRange z → parse_int64 (decimalz z) ≡ some z
parse_int64-decimalz (pos n) h =
    ap parse_int64 (decimalz-pos n)
    ∙ parse_int64-digits (decimal n) n (decimal-filled n) (parse_digits-decimal n)
    ∙ in_range-pos n h
parse_int64-decimalz (negsuc n) h =
    ap parse_int64 (decimalz-negsuc n)
    ∙ parse_int64-minus (decimal (suc n))
    ∙ ap (signed true) (
        parse_unsigned-digits (decimal (suc n)) (suc n) (decimal-filled (suc n))
          (parse_digits-decimal (suc n)))
    ∙ in_range-negsuc n h

pub parse_int64-decimal : (n : ℕ) → n < int64_bound → parse_int64 (decimal n) ≡ some (pos n)
parse_int64-decimal n h =
    parse_int64-digits (decimal n) n (decimal-filled n) (parse_digits-decimal n) ∙ in_range-pos n h

decimalz-filled : (z : ℤ) → is_empty (decimalz z) ≡ false
decimalz-filled (pos n) = ap is_empty (decimalz-pos n) ∙ decimal-filled n
decimalz-filled (negsuc n) = ap is_empty (decimalz-negsuc n)

set_value-trimmed :
    (env : Environment) (key raw t : Text)
    → env.variable key ≡ some raw
    → trim_space raw ≡ t
    → is_empty t ≡ false
    → set_value env key ≡ some t
unfolding set_value
set_value-trimmed env key raw t set trimmed filled = rw (set, set_value) (rw trimmed (rw filled))

-- A variable that holds a number of 64 bits as `%d` prints it, with white space around it or not, is
-- read as that number, the least and the largest one included.
pub env_int64-decimalz :
    (env : Environment) (key : Text) (fallback : ℤ) (raw : Text) (z : ℤ)
    → env.variable key ≡ some raw
    → trim_space raw ≡ decimalz z
    → InRange z
    → env_int64 env key fallback ≡ ok z
unfolding env_int64
env_int64-decimalz env key fallback raw z set trimmed small =
    rw (set_value-trimmed env key raw (decimalz z) set trimmed (decimalz-filled z), env_int64)
      (rw (parse_int64-decimalz z small))
