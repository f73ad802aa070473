-- ===== src/Base/Outcomes.antt =====
-- How a piece of C++ ends: with a value, or with a fault that the language leaves undefined or
-- that the library reports by an exception which nothing catches.
use mathlib.Core.Path.{◌≡◌, refl}

pub data Fault : Type 0 where
  -- a std::string from a null begin and a non-null end
  null_range : Fault
  -- a std::string whose end precedes its begin, or of a negative length
  bad_length : Fault
  -- an access outside the array
  out_of_bounds : Fault
  -- atoi of a number that is no int
  no_int : Fault
  -- a call through a null pointer
  null_pointer : Fault
  -- an assert that does not hold
  failed_assert : Fault
  -- a delete of what new did not give, or of what is deleted
  bad_delete : Fault
  -- no fault of the program: the bound that the model sets on the rounds of a loop
  no_fuel : Fault

pub data Outcome {ℓ} (A : Type ℓ) : Type ℓ where
  ok : A → Outcome A
  fault : Fault → Outcome A

infixl 5 ◌>>=◌
abbrev pub ◌>>=◌ {ℓ κ} : {A : Type ℓ} {B : Type κ} → Outcome A → (A → Outcome B) → Outcome B
fault why >>= next = fault why
ok v >>= next = next v

-- The call gives a value, and the value satisfies `P`.
pub data Succeeds {ℓ} {A : Type 0} (P : A → Type ℓ) : Outcome A → Type ℓ where
  succeeds : {v : A} → P v → Succeeds P (ok v)

-- A weaker condition on the value.
pub Succeeds-weaken {ℓ κ} :
    {A : Type 0} {P : A → Type ℓ} {Q : A → Type κ} {call : Outcome A}
    → Succeeds P call
    → ((v : A) → P v → Q v)
    → Succeeds Q call
Succeeds-weaken (succeeds h) weaken = succeeds (weaken _ h)

-- The value.
pub Succeeds-value {ℓ} :
    {A : Type 0} {P : A → Type ℓ} {call : Outcome A}
    → Succeeds P call
    → (v : A) × (call ≡ ok v) × P v
Succeeds-value (succeeds {v = v} h) = (v, refl, h)
