-- ===== src/ByteFields/Accessor.antt =====
-- include/Modbus/Accessor.h: two register controllers, by address space.
use modbus_basic.Common.{ℕ, Bool, false, List, Result, ok, ◌>>=◌}
use modbus_basic.External.{External}
use modbus_basic.Modbus.Function.{
  AddressSpace, coil, discrete_input, input_register, holding_register, system_status,
  device_identifier, unmapped,
}
use modbus_basic.ByteFields
use modbus_basic.ByteFields.{U8Field, U8Buffer}

pub record Accessor : Type 0 where
  pub holding : List U8Field
  pub input : List U8Field

unfoldable pub access_valid : Accessor → ℕ → ℕ → AddressSpace → Result Bool
access_valid s address n holding_register = ByteFields.access_valid s.holding address n
access_valid s address n input_register = ByteFields.access_valid s.input address n
access_valid s address n coil = ok false
access_valid s address n discrete_input = ok false
access_valid s address n system_status = ok false
access_valid s address n device_identifier = ok false
access_valid s address n unmapped = ok false

module _ (x : External) where
  unfoldable pub read : Accessor → ℕ → ℕ → AddressSpace → U8Buffer → Result (ℕ × U8Buffer)
  read s address n holding_register buffer = ByteFields.read x s.holding address n buffer
  read s address n input_register buffer = ByteFields.read x s.input address n buffer
  read s address n coil buffer = ok (0, buffer)
  read s address n discrete_input buffer = ok (0, buffer)
  read s address n system_status buffer = ok (0, buffer)
  read s address n device_identifier buffer = ok (0, buffer)
  read s address n unmapped buffer = ok (0, buffer)

  unfoldable pub write : Accessor → ℕ → ℕ → AddressSpace → U8Buffer → Result (ℕ × Accessor)
  write s address n holding_register buffer = do
    out ← ByteFields.write x s.holding address n buffer
    ok (out.0, record s { holding = out.1 })
  write s address n input_register buffer = do
    out ← ByteFields.write x s.input address n buffer
    ok (out.0, record s { input = out.1 })
  write s address n coil buffer = ok (0, s)
  write s address n discrete_input buffer = ok (0, s)
  write s address n system_status buffer = ok (0, s)
  write s address n device_identifier buffer = ok (0, s)
  write s address n unmapped buffer = ok (0, s)
