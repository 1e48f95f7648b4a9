-- ===== src/Modbus/Response.antt =====
-- include/Modbus/Modbus.h: `class Response`, the reply under construction.
pub mod Laws
use modbus_basic.Common.{
  ℕ, List, [], ◌∷◌, Bool, false, Result, ok, ◌>>=◌, ◌>>◌, assert, leb, ltb, if◌then◌else◌,
  replicate,
}
use modbus_basic.External.{External}
use modbus_basic.View.{View, load, store}

abbrev pub max_frame_length : ℕ
max_frame_length = 256

pub record Response : Type 0 where
  pub length_ : ℕ
  pub data_ : List ℕ
  pub ready : Bool

-- `Response()`
abbrev pub new_response : Response
new_response = record { length_ = 0; data_ = replicate max_frame_length 0; ready = false }

-- `Reset`: every byte, the length and the flag.
abbrev pub reset : Response → Response
reset r = new_response

abbrev pub set_length : ℕ → Response → Response
set_length n r = record r { length_ = n }

-- `GetArrayView`: the first `GetLength()` bytes.
abbrev pub get_array_view : Response → View
get_array_view r = record { storage = r.data_; start = 0; size = r.length_ }

module _ (x : External) where
  -- The element that `operator[]` and `at` refer to.
  pub slot : ℕ → Result ℕ
  slot index = do
    assert x.ndebug (leb index max_frame_length)
    ok (if ltb index max_frame_length then index else 0)

  -- `response[index] = value`
  pub put : Response → ℕ → ℕ → Result Response
  unfolding slot
  put r index value = do
    i ← slot index
    bytes ← store r.data_ i value
    ok (record r { data_ = bytes })

  -- Assignments to elements of the response, in order.
  pub assign : Response → List (ℕ × ℕ) → Result Response
  assign r [] = ok r
  assign r ((i, b) ∷ rest) = do r' ← put r i b; assign r' rest

  -- `at`
  pub at_ : Response → ℕ → Result ℕ
  unfolding slot
  at_ r index = do i ← slot index; load r.data_ i
