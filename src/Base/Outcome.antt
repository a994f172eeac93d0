-- ===== src/Base/Outcome.antt =====
-- A call that may raise: the exceptions that the modelled code raises, or lets through.
use mathlib.Core.Path.{◌≡◌, refl, ap}
use mathlib.Core.Logic.{◌⊎◌, inl, inr}

-- `system_exit` is `sys.exit(2)`; `broker_error` is whatever a call of the broker's client raises.
pub data Error : Type 0 where
  key_error value_error not_implemented zero_division integrity_error broker_error : Error
  runtime_error index_error type_error overflow_error : Error
  missing_evidence cap_exceeded terminal_state system_exit : Error

pub data Result {ℓ} (A : Type ℓ) : Type ℓ where
  ok : A → Result A
  err : Error → Result A

pub Result-cases {ℓ} :
    {A : Type ℓ} (r : Result A) → ((a : A) × (r ≡ ok a)) ⊎ ((e : Error) × (r ≡ err e))
Result-cases (ok a) = inl (a, refl)
Result-cases (err e) = inr (e, refl)

-- What follows a call that returned; a raise passes on.
infixl 5 ◌>>=◌
abbrev pub ◌>>=◌ {ℓ ℓ'} : {X : Type ℓ} {Y : Type ℓ'} → Result X → (X → Result Y) → Result Y
err raised >>= next = err raised
ok x >>= next = next x

infixl 5 ◌>>◌
abbrev pub ◌>>◌ {ℓ} : {Y : Type ℓ} → Result (Unit {0}) → Result Y → Result Y
checked >> next = checked >>= λ _. next

-- The two calls of a chain that returned.
pub >>=-eq-ok-parts {ℓ ℓ'} :
    {X : Type ℓ} {Y : Type ℓ'} (m : Result X) (next : X → Result Y) {y : Y}
    → (m >>= next) ≡ ok y
    → (x : X) × (m ≡ ok x) × (next x ≡ ok y)
>>=-eq-ok-parts (ok x) next h = (x, refl, h)
>>=-eq-ok-parts (err e) next h = cc

abbrev pub value_or {ℓ} : {X : Type ℓ} → X → Result X → X
value_or x (ok y) = y
value_or x (err e) = x

pub ok-injective {ℓ} : {X : Type ℓ} {x y : X} → ok x ≡ ok y → x ≡ y
ok-injective {x = x} h = ap (value_or x) h
