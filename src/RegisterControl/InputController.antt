-- ===== src/RegisterControl/InputController.antt =====
-- include/Modbus/RegisterControl.h: InputRegisterController<T>, over any data store `T`.
pub mod Runs
use modbus_basic.Common.{
  ℕ, ◌+◌, ◌*◌, Bool, true, false, not, Result, ok, ◌>>=◌, ◌>>◌, assert, if◌then◌else◌, u8, sub_size,
  min, ℤ, pos, negsuc,
}
use modbus_basic.External.{External}
use modbus_basic.View.{View}
use modbus_basic.Modbus
use modbus_basic.Modbus.Function.{Exception, illegal_function, ack, ◌==f◌, read_input_registers}
use modbus_basic.Modbus.Frame.{Frame}
use modbus_basic.Modbus.Response.{Response, set_length, max_frame_length}
use modbus_basic.DataCommand.{read_address_start}
use modbus_basic.DataStores.{DataStore}
use modbus_basic.RegisterControl.ReadMultiple
use modbus_basic.RegisterControl.HoldingController.{Outcome, check_address}

module _ {S : Type 0} (x : External) (d : DataStore S) where
  -- The members that hand on to the store.
  abbrev pub read_location_valid : S → ℕ → ℕ → Bool
  read_location_valid s address count = d.read_location_valid s address count

  abbrev pub read_register : S → ℕ → Result ℕ
  read_register s address = d.get_register s address

  abbrev pub write_register : S → ℕ → ℕ → Result S
  write_register s address value = d.set_register s address value

  unfoldable pub validate_read_registers : S → View → Result Exception
  validate_read_registers s data_array = do
    address ← read_address_start x data_array
    register_count ← ReadMultiple.read_register_count x data_array
    ok (check_address (d.read_location_valid s address register_count) ack)

  unfoldable pub validate_frame : S → Frame → Result Exception
  unfolding validate_read_registers
  validate_frame s frame =
      if frame.function ==f read_input_registers
      then validate_read_registers s frame.data_array
      else (do assert x.ndebug false; ok illegal_function)

  unfoldable pub read_registers : S → ℕ → ℕ → View → Result View
  read_registers s starting_address register_count response_data =
      if not (d.read_location_valid s starting_address register_count)
      then (do assert x.ndebug false; ok response_data)
      else d.get_registers s starting_address register_count response_data

  -- The view is made before the header sets the response's final length.
  unfoldable pub run_read_input_registers : S → Frame → Response → Outcome S
  run_read_input_registers s frame response = do
    register_count ← ReadMultiple.read_register_count x frame.data_array
    let data_bytes = u8 (2 * register_count)
    let packet_size = data_bytes + ReadMultiple.response_header_size + Modbus.k_footer_length
    let sized = set_length (min max_frame_length packet_size) response
    address ← read_address_start x frame.data_array
    response_data ← read_registers s address register_count (record {
      storage = sized.data_;
      start = ReadMultiple.response_header_size;
      size = sub_size sized.length_ ReadMultiple.response_header_size;
    })
    filled ←
        ReadMultiple.fill_input_response_header x frame.address register_count
          (record sized { data_ = response_data.storage })
    ok (pos 0, s, filled)

  -- `ReadFrame`
  unfoldable pub read_frame : S → Frame → Response → Outcome S
  read_frame s frame response =
      if not (frame.function ==f read_input_registers)
      then ok (negsuc 0, s, response)
      else run_read_input_registers s frame response
