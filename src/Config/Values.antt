-- ===== src/Config/Values.antt =====
-- internal/config/config.go: reading one environment variable.
use dotfs_mcp_server.Base.{
  ℕ, zero, suc, ◌+◌, ◌-◌, ◌*◌, Bool, true, false, ◌&&◌, Option, none, some, List, [], ◌∷◌, Text,
  txt, ◌==◌, nat_eq, bytes_eq, leb, ltb, contains, trim_space, is_empty, split, ℤ, pos, negsuc,
  Result, ok, err, message, wrap, if◌then◌else◌, ◌≡◌, refl,
}

-- What the program asks of its environment: `os.LookupEnv`, `os.Getwd` and `time.ParseDuration`, in
-- nanoseconds.
pub record Environment : Type 0 where
  pub variable : Text → Option Text
  pub getwd : Result Text
  pub parse_duration : Text → Result ℤ

-- The digits of a number, at least one
unfoldable pub parse_digits : ℕ → Text → Option ℕ
unfolding nat_eq
parse_digits acc [] = some acc
parse_digits acc (c ∷ s) =
    let rest = parse_digits (acc * 10 + (c - b'0')) s in
    if leb b'0' c && leb c b'9' then rest else none

unfoldable pub parse_unsigned : Text → Option ℕ
unfolding parse_digits
parse_unsigned [] = none
parse_unsigned (c ∷ s) = parse_digits 0 (c ∷ s)

-- 2 ^ 63
abbrev pub int64_bound : ℕ
int64_bound = 9223372036854775808

-- The number behind its sign, within the range of an int64
unfoldable pub in_range : Bool → ℕ → Option ℤ
in_range true zero = some (pos 0)
in_range true (suc n) = if ltb n int64_bound then some (negsuc n) else none
in_range false n = if ltb n int64_bound then some (pos n) else none

abbrev pub signed : Bool → Option ℕ → Option ℤ
signed minus none = none
signed minus (some n) = in_range minus n

-- `strconv.ParseInt(s, 10, 64)`; `none` is an error.
unfoldable pub parse_int64 : Text → Option ℤ
unfolding parse_unsigned in_range nat_eq
parse_int64 [] = none
parse_int64 (c ∷ s) =
    if c == b'-'
    then signed true (parse_unsigned s)
    else if c == b'+'
    then signed false (parse_unsigned s)
    else signed false (parse_unsigned (c ∷ s))

abbrev true_words : List Text
true_words = txt "1" ∷ txt "t" ∷ txt "T" ∷ txt "true" ∷ txt "TRUE" ∷ txt "True" ∷ []

abbrev false_words : List Text
false_words = txt "0" ∷ txt "f" ∷ txt "F" ∷ txt "false" ∷ txt "FALSE" ∷ txt "False" ∷ []

-- `strconv.ParseBool`
unfoldable pub parse_bool : Text → Option Bool
parse_bool s =
    if contains true_words s then some true else if contains false_words s then some false else none

module _ (env : Environment) where
  -- The trimmed value of a variable that is set and not blank
  unfoldable pub set_value : Text → Option Text
  unfolding trim_space
  set_value key = elim (env.variable key) [
    | none ↦ none
    | some raw ↦ if is_empty (trim_space raw) then none else some (trim_space raw)
  ]

  -- `envString`
  unfoldable pub env_string : Text → Text → Text
  unfolding set_value
  env_string key fallback = elim (set_value key) [ none ↦ fallback | some v ↦ v ]

  -- The parts that are not blank, trimmed
  unfoldable pub list_parts : List Text → List Text
  unfolding trim_space
  list_parts [] = []
  list_parts (p ∷ ps) =
      let rest = list_parts ps in if is_empty (trim_space p) then rest else trim_space p ∷ rest

  -- `envList`: the value is split as it is.
  unfoldable pub env_list : Text → List Text → List Text
  unfolding list_parts split trim_space
  env_list key fallback = elim (env.variable key) [
    | none ↦ fallback
    | some raw ↦ if is_empty (trim_space raw) then fallback else list_parts (split b',' raw)
  ]

  abbrev parsed {ℓ} : {A : Type ℓ} → Text → Option A → Result A
  parsed key none = err (wrap (txt "parse") (message key))
  parsed key (some v) = ok v

  -- `envInt64`
  unfoldable pub env_int64 : Text → ℤ → Result ℤ
  unfolding set_value parse_int64
  env_int64 key fallback = elim (set_value key) [
    | none ↦ ok fallback
    | some v ↦ parsed key (parse_int64 v)
  ]

  -- `envBool`
  unfoldable pub env_bool : Text → Bool → Result Bool
  unfolding set_value parse_bool
  env_bool key fallback = elim (set_value key) [
    | none ↦ ok fallback
    | some v ↦ parsed key (parse_bool v)
  ]

  abbrev parsed_duration : Result ℤ → Result ℤ
  parsed_duration (err e) = err (wrap (txt "parse") e)
  parsed_duration (ok d) = ok d

  -- `envDuration`
  unfoldable pub env_duration : Text → ℤ → Result ℤ
  unfolding set_value
  env_duration key fallback = elim (set_value key) [
    | none ↦ ok fallback
    | some v ↦ parsed_duration (env.parse_duration v)
  ]

parse_int64_test : parse_int64 (txt "-9223372036854775808") ≡ some (negsuc 9223372036854775807)
unfolding parse_int64
parse_int64_test = refl

parse_int64_overflow_test : parse_int64 (txt "9223372036854775808") ≡ none
unfolding parse_int64
parse_int64_overflow_test = refl
