-- ===== src/Base/Errors.antt =====
-- src/core/error.rs: the error type and results that carry it. An operating-system error is the
-- `io` constructor with its kind; the text of a message is kept as it is in the code.
use Prim.Native.Nat.{ℕ}
use Prim.Native.String.{String}
use mathlib.Core.Path.{◌≡◌, refl}
use mathlib.Core.Bool.{Bool, true, false}
use mathlib.Core.Logic.{◌⊎◌, inl, inr}

-- The kinds of `std::io::Error` that the code distinguishes.
pub data IoKind : Type 0 where
  not_found already_exists unexpected_eof timed_out broken_pipe : IoKind

pub data Error : Type 0 where
  io : IoKind → Error
  corrupt : String → Error
  corrupt_metadata : String → Error
  unsupported : String → Error
  unsupported_version : ℕ → Error
  payload_too_large : Error
  queue_full : Error
  writer_already_active : Error
  invalid_partition : String → Error

pub data Result {ℓ} (A : Type ℓ) : Type ℓ where
  ok : A → Result A
  err : Error → Result A

infixl 5 ◌>>=◌ ◌>>◌
abbrev pub ◌>>=◌ {ℓ κ} : {X : Type ℓ} {Y : Type κ} → Result X → (X → Result Y) → Result Y
err failure >>= next = err failure
ok x >>= next = next x

-- `if !test { return Err(failure); }`
abbrev pub guard : Bool → Error → Result (Unit {0})
guard false failure = err failure
guard true failure = ok tt

abbrev pub ◌>>◌ {ℓ} : {Y : Type ℓ} → Result (Unit {0}) → Result Y → Result Y
first >> second = first >>= λ done. second

pub Result-cases {ℓ} :
    {X : Type ℓ} (r : Result X) → ((x : X) × (r ≡ ok x)) ⊎ ((failure : Error) × (r ≡ err failure))
Result-cases (err failure) = inr (failure, refl)
Result-cases (ok x) = inl (x, refl)

pub >>=-eq-ok {ℓ κ} :
    {X : Type ℓ} {Y : Type κ} (r : Result X) (next : X → Result Y) {y : Y}
    → (r >>= next) ≡ ok y
    → (x : X) × (r ≡ ok x) × (next x ≡ ok y)
>>=-eq-ok (err failure) next h = cc
>>=-eq-ok (ok x) next h = (x, refl, h)
