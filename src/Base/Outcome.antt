-- ===== src/Base/Outcome.antt =====
-- What a C function of the program can come to: a value, the end of the process, or undefined
-- behaviour (a null pointer followed, an index out of range, a division by zero).
use mathlib.Core.Option.{Option, none, some}
use mathlib.Core.Path.{◌≡◌, refl}
use mathlib.Core.Logic.{◌⊎◌, inl, inr}
use mathlib.Core.Bool.{Bool, true, false}

pub data Result {α} (X : Type α) : Type α where
  fault : Result X
  exited : Result X
  ok : X → Result X

-- The rest of a function after a part of it.
abbrev pub and_then {α β} : {X : Type α} {Y : Type β} → (X → Result Y) → Result X → Result Y
and_then rest fault = fault
and_then rest exited = exited
and_then rest (ok x) = rest x

infixl 5 ◌>>=◌ ◌>>◌
abbrev pub ◌>>=◌ {α β} : {X : Type α} {Y : Type β} (part : Result X) → (X → Result Y) → Result Y
part >>= rest = and_then rest part

abbrev pub ◌>>◌ {β} : {Y : Type β} (test : Result (Unit {0})) → Result Y → Result Y
test >> rest = and_then (λ done. rest) test

-- Following a pointer.
abbrev pub deref {ℓ} : {A : Type ℓ} → Option A → Result A
deref none = fault
deref (some a) = ok a

-- A value that the program insists on: without it the process exits.
abbrev pub or_exit {ℓ} : {A : Type ℓ} → Option A → Result A
or_exit none = exited
or_exit (some a) = ok a

-- A test without which the next operation is undefined.
abbrev pub defined : Bool → Result (Unit {0})
defined true = ok tt
defined false = fault

-- Inversion of a chain that returned.
pub >>=-eq-ok {α β} :
    {X : Type α} {Y : Type β} (part : Result X) (rest : X → Result Y) {y : Y}
    → and_then rest part ≡ ok y
    → (x : X) × (part ≡ ok x) × (rest x ≡ ok y)
>>=-eq-ok fault rest returned = cc
>>=-eq-ok exited rest returned = cc
>>=-eq-ok (ok x) rest returned = (x, refl, returned)

pub Result-cases {α} :
    {X : Type α} (r : Result X) → (r ≡ fault) ⊎ (r ≡ exited) ⊎ ((x : X) × (r ≡ ok x))
Result-cases fault = inl refl
Result-cases exited = inr (inl refl)
Result-cases (ok x) = inr (inr (x, refl))
