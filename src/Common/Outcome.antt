-- ===== src/Common/Outcome.antt =====
-- Go's `error`, and a value that a Go function returns with one. An error keeps the format and the
-- arguments that `fmt.Errorf` was given, and the error that it wraps; its text is not rendered.
use Prim.Native.Nat.{ℕ}
use Prim.Native.String.{String}
use mathlib.Core.Path.{◌≡◌, refl}
use mathlib.Core.Logic.{◌⊎◌, inl, inr}
use mathlib.Core.Bool.{Bool, true, false}
use mathlib.Core.List.{List}

pub data Arg : Type 0 where
  str : String → Arg
  num : ℕ → Arg

-- `fail` is `fmt.Errorf` with no %w, `wrap` has one %w at the end, and `join` is "%w: …%w" with two.
-- The others are the error types of the repository, and `opaque` is what a library returned.
pub data Error : Type 0 where
  fail : String → List Arg → Error
  wrap : String → List Arg → Error → Error
  join : String → Error → Error → Error
  err_client : String → Error
  err_bad_token : String → Error
  error_internal : String → Error
  error_bad_request : String → Error
  opaque : ℕ → Error

pub data Result {ℓ} (T : Type ℓ) : Type ℓ where
  err : Error → Result T
  ok : T → Result T

-- A caller goes on with the value, or returns the error at once.
infixl 5 ◌>>=◌
abbrev pub ◌>>=◌ {ℓ κ} : {T : Type ℓ} {U : Type κ} → Result T → (T → Result U) → Result U
err x >>= next = err x
ok v >>= next = next v

-- if err != nil { return …, fmt.Errorf("…: %w", err) }
abbrev pub context {ℓ} : {A : Type ℓ} → (Error → Error) → Result A → Result A
context f (ok a) = ok a
context f (err e) = err (f e)

abbrev pub is_ok {ℓ} : {A : Type ℓ} → Result A → Bool
is_ok (ok a) = true
is_ok (err e) = false

-- Inversion of a successful bind.
pub >>=-eq-ok {ℓ κ} :
    {T : Type ℓ} {U : Type κ} (m : Result T) (next : T → Result U) {w : U}
    → (m >>= next) ≡ ok w
    → (v : T) × (m ≡ ok v) × (next v ≡ ok w)
>>=-eq-ok (err x) next done = cc
>>=-eq-ok (ok v) next done = (v, refl, done)

pub Result-cases {ℓ} :
    {A : Type ℓ} (m : Result A) → ((a : A) × (m ≡ ok a)) ⊎ ((e : Error) × (m ≡ err e))
Result-cases (ok a) = inl (a, refl)
Result-cases (err e) = inr (e, refl)
