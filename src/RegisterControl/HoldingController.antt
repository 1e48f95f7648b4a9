-- ===== src/RegisterControl/HoldingController.antt =====
-- include/Modbus/RegisterControl.h: HoldingRegisterController<T>, over any data store `T`. A handler
-- returns its status with the store and the response that it leaves.
pub mod Runs
pub mod Reads
pub mod Overflow
use modbus_basic.Common.{
  ℕ, ◌+◌, ◌*◌, Bool, true, false, not, Result, ok, ◌>>=◌, ◌>>◌, assert, ◌==◌, if◌then◌else◌, u8,
  mul_size, add_size, sub_size, min, ℤ, pos, negsuc,
}
use modbus_basic.External.{External}
use modbus_basic.View.{View, sub_view}
use modbus_basic.Modbus
use modbus_basic.Modbus.Function.{
  Exception, illegal_data_address, illegal_data_value, ack, ◌==f◌, write_single_holding_register,
  read_multiple_holding_registers, write_multiple_holding_registers,
}
use modbus_basic.Modbus.Frame.{Frame}
use modbus_basic.Modbus.Response.{Response, set_length, max_frame_length}
use modbus_basic.DataCommand.{read_address_start}
use modbus_basic.DataStores.{CallbackStore}
use modbus_basic.RegisterControl.WriteSingle
use modbus_basic.RegisterControl.ReadMultiple
use modbus_basic.RegisterControl.WriteMultiple

-- `int32_t` status, data store, response.
abbrev pub Outcome : Type 0 → Type 0
Outcome S = Result (ℤ × S × Response)

-- `if (!valid) return kIllegalDataAddress`
abbrev pub check_address : Bool → Exception → Exception
check_address valid otherwise = if not valid then illegal_data_address else otherwise

module _ {S : Type 0} (x : External) (d : CallbackStore S) where
  -- The members that hand on to the store.
  abbrev pub write_location_valid : S → ℕ → ℕ → Bool
  write_location_valid s address count = d.write_location_valid s address count

  abbrev pub read_location_valid : S → ℕ → ℕ → Bool
  read_location_valid s address count = d.read_location_valid s address count

  abbrev pub read_register : S → ℕ → Result ℕ
  read_register s address = d.get_register s address

  abbrev pub write_register : S → ℕ → ℕ → Result S
  write_register s address value = d.set_register s address value

  unfoldable pub validate_write_single : S → View → Result Exception
  validate_write_single s data_array = do
    address ← read_address_start x data_array
    ok (check_address (d.write_location_valid s address 1) ack)

  unfoldable pub validate_read_multiple : S → View → Result Exception
  validate_read_multiple s data_array = do
    address ← read_address_start x data_array
    register_count ← ReadMultiple.read_register_count x data_array
    ok (check_address (d.read_location_valid s address register_count) ack)

  unfoldable pub validate_write_multiple : S → View → Result Exception
  validate_write_multiple s data_array = do
    register_count ← WriteMultiple.read_register_count x data_array
    num_data_bytes ← WriteMultiple.read_data_byte_count x data_array
    address ← read_address_start x data_array
    ok (
        check_address (d.write_location_valid s address register_count)
          (if not (mul_size register_count 2 == num_data_bytes) then illegal_data_value else ack))

  unfoldable pub validate_frame : S → Frame → Result Exception
  unfolding validate_write_single validate_read_multiple validate_write_multiple
  validate_frame s frame =
      if frame.function ==f read_multiple_holding_registers
      then validate_read_multiple s frame.data_array
      else if frame.function ==f write_single_holding_register
      then validate_write_single s frame.data_array
      else if frame.function ==f write_multiple_holding_registers
      then validate_write_multiple s frame.data_array
      else (do assert x.ndebug false; ok ack)

  unfoldable pub run_write_single : S → Frame → Response → Outcome S
  run_write_single s frame response = do
    address ← read_address_start x frame.data_array
    register_setting ← WriteSingle.read_setting x frame.data_array
    written ← d.set_register s address register_setting
    called ← d.set_register_callback written address register_setting
    filled ← WriteSingle.fill_response_header x frame.address address register_setting response
    ok (pos 0, called, filled)

  -- A location that is not valid fails an assertion; without assertions the view keeps its bytes.
  unfoldable pub read_registers : S → ℕ → ℕ → View → Result View
  read_registers s starting_address register_count response_data =
      if not (d.read_location_valid s starting_address register_count)
      then (do assert x.ndebug false; ok response_data)
      else d.get_registers s starting_address register_count response_data

  unfoldable pub run_read_multiple : S → Frame → Response → Outcome S
  run_read_multiple s frame response = do
    address ← read_address_start x frame.data_array
    register_count ← ReadMultiple.read_register_count x frame.data_array
    let data_bytes = u8 (2 * register_count)
    let packet_size = data_bytes + ReadMultiple.response_header_size + Modbus.k_footer_length
    let sized = set_length (min max_frame_length packet_size) response
    filled ← ReadMultiple.fill_holding_response_header x frame.address register_count sized
    response_data ← read_registers s address register_count (record {
      storage = filled.data_;
      start = ReadMultiple.response_header_size;
      size = sub_size filled.length_ ReadMultiple.response_header_size;
    })
    ok (pos 0, s, record filled { data_ = response_data.storage })

  unfoldable pub run_write_multiple : S → Frame → Response → Outcome S
  run_write_multiple s frame response = do
    address ← read_address_start x frame.data_array
    register_count ← WriteMultiple.read_register_count x frame.data_array
    filled ← WriteMultiple.fill_response_header x frame.address address register_count response
    data_view ←
        sub_view x frame.data_array WriteMultiple.command_value_start (mul_size register_count 2)
    written ← d.set_registers s address register_count data_view
    called ← d.set_registers_callback written address register_count data_view
    ok (pos 0, called, filled)

  -- `ReadFrame`
  unfoldable pub read_frame : S → Frame → Response → Outcome S
  read_frame s frame response =
      if frame.function ==f write_single_holding_register
      then run_write_single s frame response
      else if frame.function ==f read_multiple_holding_registers
      then run_read_multiple s frame response
      else if frame.function ==f write_multiple_holding_registers
      then run_write_multiple s frame response
      else (do assert x.ndebug false; ok (negsuc 0, s, response))
