-- ===== src/Common/Results.antt =====
-- A Python function that may raise returns a `Result`. An error keeps the exception's class and
-- its message, or the value that an f-string puts into the message.
use Prim.Native.Nat.{ℕ}
use Prim.Native.String.{String}
use mathlib.Core.Bool.{Bool, true, false}
use mathlib.Core.Option.{Option, none, some}
use mathlib.Core.Logic.{◌⊎◌, inl, inr}
use mathlib.Core.Path.{◌≡◌, refl}

pub data Error : Type 0 where
  value_error type_error runtime_error validation_error attribute_error : String → Error
  key_error index_error : Error
  already_registered : String → Error
  duplicate_entry : ℕ → Error
  wrong_algorithm : String → Error
  integrity_error agent_error : String → Error
  unicode_error os_error : Error

pub data Result {κ} (A : Type κ) : Type κ where
  err : Error → Result A
  ok : A → Result A

abbrev pub is_ok {κ} : {A : Type κ} → Result A → Bool
is_ok (err error) = false
is_ok (ok a) = true

-- What follows a call that raises is not run.
infixl 5 ◌>>=◌ ◌>>◌
abbrev pub ◌>>=◌ {κ μ} : {A : Type κ} {B : Type μ} → Result A → (A → Result B) → Result B
err error >>= next = err error
ok a >>= next = next a

-- `if test: raise error`
abbrev pub raise_if : Bool → Error → Result (Unit {0})
raise_if true error = err error
raise_if false error = ok tt

abbrev pub ◌>>◌ {κ} : {A : Type κ} → Result (Unit {0}) → Result A → Result A
check >> next = check >>= λ done. next

-- `none` raises `error`
abbrev pub or_raise {κ} : {A : Type κ} → Option A → Error → Result A
or_raise none error = err error
or_raise (some a) error = ok a

pub Result-cases {κ} :
    {A : Type κ} (r : Result A) → ((e : Error) × (r ≡ err e)) ⊎ ((a : A) × (r ≡ ok a))
Result-cases (ok a) = inr (a, refl)
Result-cases (err e) = inl (e, refl)

pub >>=-eq-ok {κ μ} :
    {A : Type κ} {B : Type μ} (r : Result A) (next : A → Result B) {b : B}
    → r >>= next ≡ ok b
    → (a : A) × (r ≡ ok a) × (next a ≡ ok b)
>>=-eq-ok (err error) next h = cc
>>=-eq-ok (ok a) next h = (a, refl, h)
