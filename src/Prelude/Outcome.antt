-- ===== src/Prelude/Outcome.antt =====
-- How a piece of code ends: with a value, or by one of the ways in which C++ code fails.
use mathlib.Core.Bool.{Bool, true, false}

-- A failed `assert`, an access outside a container, an overlapping `std::copy`, `std::length_error`
-- and `std::out_of_range`, a null pointer and a pointer to an object that is gone; and, which is no fault of the code, that a model's fuel has run out.
pub data Fault : Type 0 where
  assertion out_of_bounds overlap length_error out_of_range null_pointer dangling out_of_fuel :
      Fault

pub data Result {ℓ} (A : Type ℓ) : Type ℓ where
  ok : A → Result A
  err : Fault → Result A

-- Go on if the test holds, and fail with the fault if not.
abbrev pub check : Bool → Fault → Result (Unit {0})
check holds fault = elim holds [ true ↦ ok tt | false ↦ err fault ]

-- What follows a call that returns, and what follows a check.
infixl 5 ◌>>=◌ ◌>>◌
abbrev pub ◌>>=◌ {ℓ κ} : {A : Type ℓ} {B : Type κ} → Result A → (A → Result B) → Result B
ok value >>= next = next value
err fault >>= next = err fault

abbrev pub ◌>>◌ {ℓ} : {B : Type ℓ} → Result (Unit {0}) → Result B → Result B
ok done >> next = next
err fault >> next = err fault
