-- ===== src/RegisterControl/ReadMultiple.antt =====
-- include/Modbus/RegisterControl.h: ReadMultipleRegistersCommandBase and its two commands, for
-- holding and for input registers.
use modbus_basic.Common.{
  ℕ, ◌+◌, [], ◌∷◌, Result, ok, ◌>>=◌, ◌>>◌, assert, leb, u8, mul_size, add_size,
}
use modbus_basic.External.{External}
use modbus_basic.View.{View, view_get, view_assign, read_uint16}
use modbus_basic.Modbus
use modbus_basic.Modbus.Function.{
  Function, read_multiple_holding_registers, read_input_registers, code,
}
use modbus_basic.Modbus.Frame.{Frame}
use modbus_basic.Modbus.Response.{Response, assign, set_length}
use modbus_basic.DataCommand.{k_data_address_start, k_data_address_end}

-- `struct CommandPacket`
abbrev pub command_register_count : ℕ
command_register_count = k_data_address_end + 1

abbrev pub command_packet_size : ℕ
command_packet_size = command_register_count + 2

-- `struct ResponsePacket`
abbrev pub response_number_of_bytes : ℕ
response_number_of_bytes = Modbus.response_header_end + 1

abbrev pub response_header_size : ℕ
response_header_size = response_number_of_bytes + 1

module _ (x : External) where
  unfoldable pub read_register_count : View → Result ℕ
  read_register_count data_array = read_uint16 x data_array command_register_count

  unfoldable pub read_response_byte_count : View → Result ℕ
  read_response_byte_count data_array = view_get x data_array response_number_of_bytes

  unfoldable pub fill_response_header_base : ℕ → ℕ → Response → Function → Result Response
  fill_response_header_base slave_address register_count response function = do
    let number_of_data_bytes = mul_size register_count 2
    filled ← assign x response (
        (Modbus.response_slave_address, slave_address)
        ∷ (Modbus.response_function, code function)
        ∷ (response_number_of_bytes, u8 number_of_data_bytes)
        ∷ [])
    ok (set_length (add_size response_header_size number_of_data_bytes) filled)

  unfoldable pub fill_frame_base : ℕ → ℕ → Frame → Function → Result Frame
  fill_frame_base address value frame function = do
    assert x.ndebug (leb command_packet_size frame.data_array.size)
    filled ← view_assign x frame.data_array (
        (k_data_address_start, x.get_byte address 1)
        ∷ (k_data_address_start + 1, x.get_byte address 0)
        ∷ (command_register_count, x.get_byte value 1)
        ∷ (command_register_count + 1, x.get_byte value 0)
        ∷ [])
    ok (record frame {
      function = function;
      data_array = filled;
      data_length = command_packet_size;
    })

  -- ReadMultipleHoldingRegistersCommand
  unfoldable pub fill_holding_frame : ℕ → ℕ → Frame → Result Frame
  unfolding fill_frame_base
  fill_holding_frame address value frame =
      fill_frame_base address value frame read_multiple_holding_registers

  unfoldable pub fill_holding_response_header : ℕ → ℕ → Response → Result Response
  unfolding fill_response_header_base
  fill_holding_response_header slave_address register_count response =
      fill_response_header_base slave_address register_count response
        read_multiple_holding_registers

  -- ReadInputRegistersCommand
  unfoldable pub fill_input_frame : ℕ → ℕ → Frame → Result Frame
  unfolding fill_frame_base
  fill_input_frame address value frame = fill_frame_base address value frame read_input_registers

  unfoldable pub fill_input_response_header : ℕ → ℕ → Response → Result Response
  unfolding fill_response_header_base
  fill_input_response_header slave_address register_count response =
      fill_response_header_base slave_address register_count response read_input_registers
