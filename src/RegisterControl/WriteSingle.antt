-- ===== src/RegisterControl/WriteSingle.antt =====
-- include/Modbus/RegisterControl.h: WriteSingleHoldingRegisterCommand.
use modbus_basic.Common.{ℕ, ◌+◌, [], ◌∷◌, Result, ok, ◌>>=◌, ◌>>◌, assert, leb}
use modbus_basic.External.{External}
use modbus_basic.View.{View, view_assign, read_uint16}
use modbus_basic.Modbus
use modbus_basic.Modbus.Function.{Function, write_single_holding_register, code}
use modbus_basic.Modbus.Frame.{Frame}
use modbus_basic.Modbus.Response.{Response, assign, set_length}
use modbus_basic.DataCommand.{k_data_address_start, k_data_address_end}

abbrev pub k_function : Function
k_function = write_single_holding_register

-- `struct CommandPacket`
abbrev pub command_value_start : ℕ
command_value_start = k_data_address_end + 1

abbrev pub command_packet_size : ℕ
command_packet_size = command_value_start + 2

-- `struct ResponsePacket`
abbrev pub response_data_address : ℕ
response_data_address = Modbus.response_header_end + 1

abbrev pub response_value_start : ℕ
response_value_start = response_data_address + 2

abbrev pub response_packet_size : ℕ
response_packet_size = response_value_start + 2

module _ (x : External) where
  unfoldable pub read_setting : View → Result ℕ
  read_setting data_array = read_uint16 x data_array command_value_start

  unfoldable pub read_response_setting : View → Result ℕ
  read_response_setting data_array = read_uint16 x data_array response_value_start

  unfoldable pub read_response_address_start : View → Result ℕ
  read_response_address_start data_array = read_uint16 x data_array response_data_address

  unfoldable pub fill_response_header : ℕ → ℕ → ℕ → Response → Result Response
  fill_response_header slave_address address value response = do
    filled ← assign x response (
        (Modbus.response_slave_address, slave_address)
        ∷ (Modbus.response_function, code k_function)
        ∷ (response_data_address, x.get_byte address 1)
        ∷ (response_data_address + 1, x.get_byte address 0)
        ∷ (response_value_start, x.get_byte value 1)
        ∷ (response_value_start + 1, x.get_byte value 0)
        ∷ [])
    ok (set_length response_packet_size filled)

  unfoldable pub fill_frame : ℕ → ℕ → Frame → Result Frame
  fill_frame address value frame = do
    assert x.ndebug (leb command_packet_size frame.data_array.size)
    filled ← view_assign x frame.data_array (
        (k_data_address_start, x.get_byte address 1)
        ∷ (k_data_address_start + 1, x.get_byte address 0)
        ∷ (command_value_start, x.get_byte value 1)
        ∷ (command_value_start + 1, x.get_byte value 0)
        ∷ [])
    ok (record frame {
      function = k_function;
      data_array = filled;
      data_length = command_packet_size;
    })
