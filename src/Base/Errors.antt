-- ===== src/Base/Errors.antt =====
-- Go's errors. An error carries its sentinel, or the fixed words of its message; the values that
-- a format puts into a message are left out. `errors.Is` looks through `%w`.
use mathlib.Core.Bool.{Bool, true, false}
use mathlib.Core.Path.{◌≡◌, refl, subst}
use mathlib.Core.Logic.{◌⊎◌, inl, inr}
use dotfs_mcp_server.Base.Bytes.{Text}
use dotfs_mcp_server.Base.Int.{ℤ}

pub data Sentinel : Type 0 where
  not_found unsupported_language unsupported_go_language : Sentinel
  no_compile_commands no_go_module manager_closed daemon_exited : Sentinel
  xref_timeout deadline_exceeded canceled : Sentinel

pub data Error : Type 0 where
  message : Text → Error
  sentinel : Sentinel → Error
  wrap : Text → Error → Error
  response : ℤ → Text → Error

unfoldable pub same_sentinel : Sentinel → Sentinel → Bool
same_sentinel not_found not_found = true
same_sentinel unsupported_language unsupported_language = true
same_sentinel unsupported_go_language unsupported_go_language = true
same_sentinel no_compile_commands no_compile_commands = true
same_sentinel no_go_module no_go_module = true
same_sentinel manager_closed manager_closed = true
same_sentinel daemon_exited daemon_exited = true
same_sentinel xref_timeout xref_timeout = true
same_sentinel deadline_exceeded deadline_exceeded = true
same_sentinel canceled canceled = true
same_sentinel _ _ = false

-- `errors.Is(err, target)`
unfoldable pub error_is : Error → Sentinel → Bool
unfolding same_sentinel
error_is (message m) t = false
error_is (sentinel s) t = same_sentinel s t
error_is (wrap m e) t = error_is e t
error_is (response c m) t = false

-- What a function with a last result of type `error` gives back.
pub data Result {ℓ} (A : Type ℓ) : Type ℓ where
  err : Error → Result A
  ok : A → Result A

-- `fmt.Errorf("…: %w", err)` on the error of a call.
abbrev pub wrapped {ℓ} : {A : Type ℓ} → Text → Result A → Result A
wrapped m (ok a) = ok a
wrapped m (err e) = err (wrap m e)

-- An early return with an error.
abbrev pub reject_if : Bool → Error → Result (Unit {0})
reject_if true e = err e
reject_if false e = ok tt

-- `if err != nil { return …, err }` behind a call.
infixl 10 ◌>>=◌
abbrev pub ◌>>=◌ {ℓ κ} : {A : Type ℓ} {B : Type κ} → Result A → (A → Result B) → Result B
err e >>= next = err e
ok value >>= next = next value

infixl 10 ◌>>◌
abbrev pub ◌>>◌ {ℓ} : {B : Type ℓ} → Result (Unit {0}) → Result B → Result B
check >> next = check >>= λ _. next

pub Result-cases {ℓ} :
    {A : Type ℓ} (r : Result A) → ((e : Error) × (r ≡ err e)) ⊎ ((a : A) × (r ≡ ok a))
Result-cases (ok a) = inr (a, refl)
Result-cases (err e) = inl (e, refl)

-- A chain that succeeds has succeeded at its first call.
pub >>=-eq-ok {ℓ κ} :
    {A : Type ℓ} {B : Type κ} (call : Result A) (next : A → Result B) {b : B}
    → (call >>= next) ≡ ok b
    → (a : A) × (call ≡ ok a) × (next a ≡ ok b)
>>=-eq-ok (err e) next done = cc
>>=-eq-ok (ok a) next done = (a, refl, done)

pub wrapped-eq-ok {ℓ} :
    {A : Type ℓ} (m : Text) (r : Result A) {a : A} → wrapped m r ≡ ok a → r ≡ ok a
wrapped-eq-ok m (ok a) h = h
wrapped-eq-ok m (err e) h = cc

pub reject_if-eq-ok {ℓ} :
    {A : Type ℓ} (b : Bool) (e : Error) (k : Result A) {a : A}
    → (reject_if b e >>= λ _. k) ≡ ok a
    → (b ≡ false) × (k ≡ ok a)
reject_if-eq-ok true e k h = cc
reject_if-eq-ok false e k h = (refl, h)

-- What holds of the value, if there is one.
abbrev pub Ensures {ℓ κ} : {A : Type ℓ} → (A → Type κ) → Result A → Type κ
Ensures P (ok a) = P a
Ensures P (err e) = Unit

pub Ensures-bind {ℓ} :
    {A : Type ℓ} {B : Type ℓ} (P : A → Type 0) (Q : B → Type 0) (m : Result A) (f : A → Result B)
    → Ensures P m
    → ((a : A) → P a → Ensures Q (f a))
    → Ensures Q (m >>= f)
Ensures-bind P Q (ok a) f h k = k a h
Ensures-bind P Q (err e) f h k = tt

pub Ensures-wrapped {ℓ} :
    {A : Type ℓ} (P : A → Type 0) (m : Text) (r : Result A) → Ensures P r → Ensures P (wrapped m r)
Ensures-wrapped P m (ok a) h = h
Ensures-wrapped P m (err e) h = tt

pub Ensures-ok {ℓ} :
    {A : Type ℓ} (P : A → Type 0) (r : Result A) (a : A) → Ensures P r → r ≡ ok a → P a
Ensures-ok P r a h e = subst (Ensures P) e h

pub Ensures-any {ℓ} : {A : Type ℓ} (r : Result A) → Ensures (λ (_ : A). Unit {0}) r
Ensures-any (ok a) = tt
Ensures-any (err e) = tt

pub Ensures-map {ℓ} :
    {A : Type ℓ} (P Q : A → Type 0) (r : Result A)
    → Ensures P r
    → ((a : A) → P a → Q a)
    → Ensures Q r
Ensures-map P Q (ok a) h k = k a h
Ensures-map P Q (err e) h k = tt

-- A postcondition of a chain that its first value does not matter for.
pub Ensures-next {ℓ} :
    {A : Type ℓ} {B : Type ℓ} (Q : B → Type 0) (m : Result A) (f : A → Result B)
    → ((a : A) → Ensures Q (f a))
    → Ensures Q (m >>= f)
Ensures-next Q (ok a) f k = k a
Ensures-next Q (err e) f k = tt
