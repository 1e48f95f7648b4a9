-- ===== src/Modbus/Frame.antt =====
-- include/Modbus/Modbus.h: `struct Frame`, a packet with a window onto its payload.
pub mod Laws
use modbus_basic.Common.{ℕ, zero, suc, [], Result, ok, ◌>>=◌}
use modbus_basic.External.{External}
use modbus_basic.View.{View, view_set}
use modbus_basic.Modbus.Function.{Function}

pub record Frame : Type 0 where
  pub address : ℕ
  pub function : Function
  pub data_length : ℕ
  pub data_array : View

-- `Frame()`
abbrev pub empty_frame : Frame
empty_frame = record {
  address = 0;
  function = Function.none;
  data_length = 0;
  data_array = record { storage = []; start = 0; size = 0 };
}

-- `Frame(arrayview)`
abbrev pub frame_over : View → Frame
frame_over v = record empty_frame { data_array = v }

module _ (x : External) where
  -- `for (auto &pt : data_array) pt = 0`, with `n` elements left from `i` on.
  pub clear_from : View → ℕ → ℕ → Result View
  clear_from v i zero = ok v
  clear_from v i (suc n) = do v' ← view_set x v i 0; clear_from v' (suc i) n

  -- `Frame::Reset`
  unfoldable pub reset : Frame → Result Frame
  reset frame = do
    cleared ← clear_from frame.data_array 0 frame.data_array.size
    ok (record { address = 0; function = Function.none; data_length = 0; data_array = cleared })
