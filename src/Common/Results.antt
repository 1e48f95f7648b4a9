-- ===== src/Common/Results.antt =====
-- Runs of the code that end in a value or in a fault, chained by `do`.
use mathlib.Core.Path.{◌≡◌, refl}
use mathlib.Core.Bool.{Bool, true, false}

-- Why a run has no value: memory outside an array or behind a wild pointer is touched, an `assert`
-- fails, control runs off the end of a function that returns a value, or the fuel of a loop is spent.
pub data Fault : Type 0 where
  out_of_bounds assertion_failed no_return out_of_fuel : Fault

-- The value of a run, or its fault.
pub data Result {ℓ} (Value : Type ℓ) : Type ℓ where
  err : Fault → Result Value
  ok : Value → Result Value

infixl 5 ◌>>◌ ◌>>=◌
abbrev pub ◌>>◌ {κ} : {Next : Type κ} → Result (Unit {0}) → Result Next → Result Next
err fault >> rest = err fault
ok done >> rest = rest

abbrev pub ◌>>=◌ {ℓ κ} :
    {Value : Type ℓ} {Next : Type κ} → Result Value → (Value → Result Next) → Result Next
err fault >>= rest = err fault
ok value >>= rest = rest value

-- `assert(test)`, in a build with NDEBUG or without.
abbrev pub assert : Bool → Bool → Result (Unit {0})
assert true test = ok tt
assert false true = ok tt
assert false false = err assertion_failed

pub assert-true : (ndebug : Bool) → assert ndebug true ≡ ok tt
assert-true true = refl
assert-true false = refl
