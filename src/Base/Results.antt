-- ===== src/Base/Results.antt =====
-- What a fallible operation of the source gives: a value, an `Err`, or a panic. The variants of
-- `Error` are those of error.rs that the modelled code builds.
use Prim.Native.Nat.{ℕ}
use Prim.Native.String.{String}
use mathlib.Core.Path.{◌≡◌, refl}
use mathlib.Core.Logic.{◌⊎◌, inl, inr}
use mathlib.Core.Option.{Option, none, some}

-- The text of an error: fixed, or with a number put in by `format!` between two pieces.
pub data Message : Type 0 where
  text : String → Message
  with_id : String → ℕ → String → Message

pub data Error : Type 0 where
  instrumentation_error : Message → Error
  invalid_operation : Message → Error
  unknown_id : Message → Error

pub data Result {ℓ} (A : Type ℓ) : Type ℓ where
  panic : Result A
  ok : A → Result A
  err : Error → Result A

infixl 5 ◌>>=◌
abbrev pub ◌>>=◌ {ℓ κ} : {A : Type ℓ} {B : Type κ} → Result A → (A → Result B) → Result B
panic >>= next = panic
err why >>= next = err why
ok got >>= next = next got

-- An index or an `unwrap` that panics on `None`.
abbrev pub or_panic {ℓ} : {A : Type ℓ} → Option A → Result A
or_panic none = panic
or_panic (some a) = ok a

-- `ok_or`: an early return of an error on `None`.
abbrev pub or_err {ℓ} : {A : Type ℓ} → Option A → Error → Result A
or_err none e = err e
or_err (some a) e = ok a

-- The value, where there is one.
abbrev pub value {ℓ} : {A : Type ℓ} → Result A → Option A
value (ok a) = some a
value _ = none

-- A successful bind comes from a successful first step.
pub >>=-eq-ok {ℓ κ} :
    {A : Type ℓ} {B : Type κ} (first : Result A) (next : A → Result B) {got : B}
    → (first >>= next) ≡ ok got
    → (mid : A) × (first ≡ ok mid) × (next mid ≡ ok got)
>>=-eq-ok panic next h = cc
>>=-eq-ok (err why) next h = cc
>>=-eq-ok (ok mid) next h = (mid, refl, h)

pub Result-cases {ℓ} :
    {A : Type ℓ} (r : Result A)
    → ((a : A) × (r ≡ ok a)) ⊎ (((e : Error) × (r ≡ err e)) ⊎ (r ≡ panic))
Result-cases (ok a) = inl (a, refl)
Result-cases (err e) = inr (inl (e, refl))
Result-cases panic = inr (inr refl)
