-- ===== src/RegisterControl/WriteMultiple.antt =====
-- include/Modbus/RegisterControl.h: WriteMultipleHoldingRegistersCommand.
pub mod Values
use modbus_basic.Common.{
  ℕ, ◌+◌, ◌*◌, List, [], ◌∷◌, Result, ok, ◌>>=◌, ◌>>◌, assert, leb, u8, length,
}
use modbus_basic.External.{External}
use modbus_basic.View.{View, view_get, put_word, view_assign, read_uint16}
use modbus_basic.Modbus
use modbus_basic.Modbus.Function.{Function, write_multiple_holding_registers, code}
use modbus_basic.Modbus.Frame.{Frame}
use modbus_basic.Modbus.Response.{Response, assign, set_length}
use modbus_basic.DataCommand.{k_data_address_start, k_data_address_end}

abbrev pub k_function : Function
k_function = write_multiple_holding_registers

-- `struct CommandPacket`
abbrev pub command_register_count : ℕ
command_register_count = k_data_address_end + 1

abbrev pub command_number_of_data_bytes : ℕ
command_number_of_data_bytes = command_register_count + 2

abbrev pub command_value_start : ℕ
command_value_start = command_number_of_data_bytes + 1

abbrev pub command_header_size : ℕ
command_header_size = command_value_start

-- `struct ResponsePacket`
abbrev pub response_data_address : ℕ
response_data_address = Modbus.response_header_end + 1

abbrev pub response_register_count : ℕ
response_register_count = response_data_address + 2

abbrev pub response_packet_size : ℕ
response_packet_size = response_register_count + 2

module _ (x : External) where
  unfoldable pub read_register_count : View → Result ℕ
  read_register_count data_array = read_uint16 x data_array command_register_count

  unfoldable pub read_data_byte_count : View → Result ℕ
  read_data_byte_count data_array = view_get x data_array command_number_of_data_bytes

  unfoldable pub read_response_register_count : View → Result ℕ
  read_response_register_count data_array = read_uint16 x data_array response_register_count

  unfoldable pub read_response_address_start : View → Result ℕ
  read_response_address_start data_array = read_uint16 x data_array response_data_address

  unfoldable pub fill_response_header : ℕ → ℕ → ℕ → Response → Result Response
  fill_response_header slave_address starting_address register_count response = do
    filled ← assign x response (
        (Modbus.response_slave_address, slave_address)
        ∷ (Modbus.response_function, code k_function)
        ∷ (response_data_address, x.get_byte starting_address 1)
        ∷ (response_data_address + 1, x.get_byte starting_address 0)
        ∷ (response_register_count, x.get_byte register_count 1)
        ∷ (response_register_count + 1, x.get_byte register_count 0)
        ∷ [])
    ok (set_length response_packet_size filled)

  -- The loop over the words to write, which go behind one another from `index` on.
  pub fill_values : View → ℕ → List ℕ → Result View
  fill_values v index [] = ok v
  fill_values v index (pt ∷ rest) = do
    filled ← put_word x v index pt
    fill_values filled (index + 2) rest

  unfoldable pub fill_frame : ℕ → ℕ → List ℕ → Frame → Result Frame
  fill_frame starting_address register_count words frame = do
    let number_of_data_bytes = u8 (length words * 2)
    let frame_size = command_header_size + number_of_data_bytes
    assert x.ndebug (leb frame_size frame.data_array.size)
    filled ← view_assign x frame.data_array (
        (k_data_address_start, x.get_byte starting_address 1)
        ∷ (k_data_address_start + 1, x.get_byte starting_address 0)
        ∷ (command_register_count, x.get_byte register_count 1)
        ∷ (command_register_count + 1, x.get_byte register_count 0)
        ∷ (command_number_of_data_bytes, number_of_data_bytes)
        ∷ [])
    valued ← fill_values filled command_value_start words
    ok (record frame { function = k_function; data_array = valued; data_length = frame_size })
