-- ===== src/Base/Results.antt =====
-- Python exceptions as values.
use mathlib.Core.Path.{◌≡◌, refl}
use mathlib.Core.Bool.{Bool, true, false}
use mathlib.Core.Logic.{◌⊎◌, inl, inr}
use Prim.Native.Nat.{ℕ}

-- The classes of the exceptions that the code raises or meets. `system_exit n` is `sys.exit(n)`.
pub data Exception : Type 0 where
  runtime_error value_error io_error key_error type_error index_error : Exception
  assertion_error attribute_error unbound_local_error orchestration_error : Exception
  json_error storage_error stop_iteration zero_division_error : Exception
  cancelled_error overflow_error : Exception
  system_exit : ℕ → Exception

-- `except Exception`: the exit of the process and the cancelling of a future are none.
unfoldable pub is_caught : Exception → Bool
is_caught (system_exit n) = false
is_caught cancelled_error = false
is_caught _ = true

-- What a call gives: a value, or the exception that it raises.
pub data Result {ℓ} (V : Type ℓ) : Type ℓ where
  ok : V → Result V
  err : Exception → Result V

pub Result-cases {ℓ} :
    {V : Type ℓ} (r : Result V) → ((v : V) × (r ≡ ok v)) ⊎ ((e : Exception) × (r ≡ err e))
Result-cases (ok v) = inl (v, refl)
Result-cases (err e) = inr (e, refl)

abbrev pub is_ok {ℓ} : {V : Type ℓ} → Result V → Bool
is_ok (ok v) = true
is_ok (err e) = false

-- The next call runs unless the one before it has raised.
infixl 5 ◌>>=◌
abbrev pub ◌>>=◌ {κ ℓ} : {V : Type κ} → {W : Type ℓ} → Result V → (V → Result W) → Result W
err raised >>= next = err raised
ok v >>= next = next v

-- A chain that ends well has ended well at its first call.
pub >>=-eq-ok {κ ℓ} :
    {V : Type κ} {W : Type ℓ} (first : Result V) (next : V → Result W) {w : W}
    → (first >>= next) ≡ ok w
    → (v : V) × (first ≡ ok v) × (next v ≡ ok w)
>>=-eq-ok (err raised) next h = cc
>>=-eq-ok (ok v) next h = (v, refl, h)
