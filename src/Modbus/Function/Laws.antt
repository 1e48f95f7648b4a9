-- ===== src/Modbus/Function/Laws.antt =====
-- include/Modbus/Modbus.h: what the classification of function codes guarantees.
use modbus_basic.Common.{ℕ, ◌+◌, ◌≤◌, ◌<◌, ◌≡◌, ◌≢◌, refl, true, false, List, [], ◌∷◌, ok, arith}
use modbus_basic.Modbus.Function.{
  Function, code, from_code, first_with_code, get_function, get_error_function,
  function_code_is_valid, code_in, function_is_supported, get_valid_functions, error_functions,
}

code-first_with_code :
    (n : ℕ) (other : Function) (fs : List Function)
    → code other ≡ n
    → code (first_with_code n other fs) ≡ n
unfolding first_with_code
code-first_with_code n other [] h = h
code-first_with_code n other (f ∷ fs) h = ground (arith, code-first_with_code n other fs h)

-- The cast of a number to the enum keeps its value.
pub code-from_code : (n : ℕ) → code (from_code n) ≡ n
unfolding from_code
code-from_code n =
    code-first_with_code n _ get_valid_functions
      (code-first_with_code n (Function.unnamed n) error_functions refl)

code_in-first_with_code :
    (n : ℕ) (fs : List Function)
    → code_in n fs ≡ true
    → code (first_with_code n Function.none fs) ≡ n
unfolding code_in first_with_code
code_in-first_with_code n [] h = ground arith
code_in-first_with_code n (f ∷ fs) h = ground (arith, code_in-first_with_code n fs)

not-code_in-first_with_code :
    (n : ℕ) (fs : List Function)
    → code_in n fs ≡ false
    → first_with_code n Function.none fs ≡ Function.none
unfolding code_in first_with_code
not-code_in-first_with_code n [] h = refl
not-code_in-first_with_code n (f ∷ fs) h = ground (arith, not-code_in-first_with_code n fs)

code_in-above : (n : ℕ) → 43 < n → code_in n get_valid_functions ≡ false
unfolding code_in
code_in-above n h = ground arith

-- `GetFunction` and `FunctionCodeIsValid` agree: a valid code is the code of the function that
-- `GetFunction` finds, and for any other code `GetFunction` answers `kNone`.
pub get_function_lem :
    (n : ℕ)
    → (function_code_is_valid n ≡ true → code (get_function n) ≡ n)
      × (function_code_is_valid n ≡ false → get_function n ≡ Function.none)
unfolding get_function function_code_is_valid
get_function_lem n = ground (
  arith,
  code_in-above n,
  code_in-first_with_code n get_valid_functions,
  not-code_in-first_with_code n get_valid_functions,
)

-- For a function whose code is a byte, the error function's code is a byte with the top bit set,
-- the error function is its own error function, and a code below 0x80 has 0x80 added.
pub get_error_function_lem :
    (f : Function)
    → code f < 256
    → (0x80 ≤ code (get_error_function f))
      × (code (get_error_function f) < 256)
      × (get_error_function (get_error_function f) ≡ get_error_function f)
      × (code f < 0x80 → code (get_error_function f) ≡ code f + 0x80)
unfolding get_error_function
get_error_function_lem f h = ground (arith, code-from_code (code f + 0x80))

-- `FunctionIsSupported` never answers that a function is supported.
pub function_is_supported_never : (f : Function) → function_is_supported f ≢ ok true
unfolding function_is_supported
function_is_supported_never f = ground arith
