-- ===== src/Witnesses.antt =====
-- Data for concrete runs of the theorems: a build with assertions, a checksum that adds the bytes,
-- and a small slave with some requests.
pub mod Registers
pub mod Packets
pub mod Requests
pub mod Stores
pub mod Lines
pub mod Endurance
pub mod Calls
pub mod Masters
pub mod Devices
pub mod Maps
use modbus_basic.Common.{
  ℕ, ◌+◌, ◌*◌, ◌/◌, ◌%◌, ◌≤◌, ◌<◌, ◌≡◌, ◌≢◌, ◌↔◌, refl, replicate-IsByte, true, false, List, [],
  ◌∷◌, ok, err, out_of_bounds, arith, ltb, ◌==◌, if◌then◌else◌, replicate, pos, length, lt→ltb,
}
use modbus_basic.Exchange.Serving.{IsServing}
use modbus_basic.Exchange.Session.{IsIdle}
use modbus_basic.External.{External, IsExternal}
use modbus_basic.View.{View, view_of}
use modbus_basic.Modbus.Function.{
  Function, illegal_data_address, code, ack, read_coils, read_multiple_holding_registers,
  read_input_registers, write_single_holding_register, write_multiple_holding_registers,
  get_function, get_error_function, function_code_is_valid, function_is_supported, code_in,
  first_with_code,
}
use modbus_basic.Modbus.Function.Laws.{
  get_function_lem, get_error_function_lem, function_is_supported_never,
}
use modbus_basic.Modbus.Frame.{Frame, frame_over}
use modbus_basic.Modbus.Response.{Response, new_response}
use modbus_basic.DataStores.Registers.{
  RegisterDataStore, read_location_valid, get_registers, set_registers,
}
use modbus_basic.DataStores.Registers.Bounds.{read_location_valid_iff}
use modbus_basic.DataStores.Registers.Access.{get_registers_lem, set_registers_lem}
use modbus_basic.DataStores.Updating.{UpdatingRegisterDataStore, updating_store, register_store}
use modbus_basic.Common.{write_at, range, get_or, assertion_failed, ◌>>=◌}
use modbus_basic.MappedStore
use modbus_basic.MappedStore.{
  MemoryController, MappedRegisterDataStore, any_equal, get_matching_index,
  get_memory_map_entry_index, write_location_valid, check_location_valid,
}
use modbus_basic.MappedStore.Lookup.{get_matching_index_lem, access-valid_lem, access-invalid_lem}
use modbus_basic.ByteFields.{U8Field, U8Buffer, access_valid, read, find_block}
use modbus_basic.ByteFields.Blocks.{access_valid-beyond, read_lem}
use modbus_basic.DataStores.Updating.{
  set_register_callback, new_data_available, clear_new_data_flags,
}
use modbus_basic.DataStores.Updating.NewData.{new_data_lem}
use modbus_basic.ModbusRtu.Protocol.Received.{received, received-valid}
use modbus_basic.ModbusRtu.Slave.{receive}
use modbus_basic.ModbusRtu.Protocol.Overflow.{frame_crc_is_valid-outside}
use modbus_basic.ModbusRtu.Slave.Receive.{with_input, receive-received}
use modbus_basic.RegisterControl.HoldingController.Runs.{
  IsStore, IsPayload, run_write_single_lem, run_write_multiple_lem,
}
use modbus_basic.RegisterControl.HoldingController.{
  run_write_single, run_read_multiple, run_write_multiple,
}
use modbus_basic.RegisterControl.InputController.{run_read_input_registers}
use modbus_basic.RegisterControl.InputController.Runs.{run_read_input_registers_lem}
use modbus_basic.ModbusRtu.ReadContext
use modbus_basic.ModbusRtu.ReadContext.{PacketState, process_all, process_character}
use modbus_basic.ModbusRtu.ReadContext.Receive.{process_all_packet}
use modbus_basic.ModbusRtu.ReadContext.Progress.{Advances, process_character-IsReceiving}
use modbus_basic.ModbusRtu.Protocol.{frame_crc_is_valid, frame_response}
use modbus_basic.ModbusRtu.Protocol.Framing.{frame_crc_is_valid_lem}
use modbus_basic.ModbusRtu.Protocol.Reply.{IsFramed, frame_response-IsFramed}
use modbus_basic.ModbusRtu.Slave.{new_base, process_message, validate_message}
use modbus_basic.ModbusRtu.Slave.Validate.{RegisterSlave, validate_message-verdict}
use modbus_basic.ModbusRtu.Slave.Errors.{
  request, with_request, with_response, IsSized, process_message_foreign, process_message_refused,
}
use modbus_basic.ModbusRtu.Slave.Commands.{
  with_holding, process_message_read_holding, process_message_write_single,
  process_message_write_multiple, process_message_read_input,
}

abbrev pub sum : List ℕ → ℕ
sum [] = 0
sum (b ∷ bs) = b + sum bs

abbrev pub plain : External
plain = record {
  ndebug = false;
  view_index = λ size i. if ltb i size then ok i else err out_of_bounds;
  get_byte = λ w n. if n == 0 then w % 256 else w / 256 % 256;
  make_msb_uint16 = λ hi lo. hi * 256 + lo;
  utilities_crc16 = λ bytes. sum bytes % 65536;
}

pub plain_laws : IsExternal plain
plain_laws = record {
  inside = λ size i h. rw (lt→ltb i size h);
  low_byte = λ w. refl;
  high_byte = λ w. refl;
  msb_first = λ hi lo h l. refl;
  crc_word = λ bytes. omega arith;
}

-- Four holding registers, two input registers, address 9.
abbrev pub four : RegisterDataStore
four = record { registers = 10 ∷ 20 ∷ 30 ∷ 40 ∷ [] }

abbrev pub store : UpdatingRegisterDataStore
store = record { base = four; flags = replicate 4 false }

abbrev pub inputs : RegisterDataStore
inputs = record { registers = 7 ∷ 800 ∷ [] }

abbrev pub slave : RegisterSlave
slave = record { base = new_base; slave_address = 9; holding = store; input = inputs }

pub store-IsStore : IsStore store
store-IsStore = record { reach = omega arith; flagged = refl }

pub slave-IsSized : IsSized slave
slave-IsSized = record { holding_size = omega arith; input_size = omega arith }

-- The payloads and checksums of a read of two registers from 1 on, of one from 0 on, of a write of 77
-- to register 1, of a write of 50 and 60 to the registers from 1 on, and of a read out of range.
abbrev pub read_two : View
read_two = view_of (0 ∷ 1 ∷ 0 ∷ 2 ∷ 0 ∷ 15 ∷ [])

abbrev pub read_input : View
read_input = view_of (0 ∷ 0 ∷ 0 ∷ 2 ∷ 0 ∷ 15 ∷ [])

abbrev pub write_one : View
write_one = view_of (0 ∷ 1 ∷ 0 ∷ 77 ∷ 0 ∷ 93 ∷ [])

abbrev pub write_two : View
write_two = view_of (0 ∷ 1 ∷ 0 ∷ 2 ∷ 4 ∷ 0 ∷ 50 ∷ 0 ∷ 60 ∷ 0 ∷ 142 ∷ [])

abbrev pub read_far : View
read_far = view_of (0 ∷ 1 ∷ 0 ∷ 9 ∷ 0 ∷ 22 ∷ [])

pub read_two-IsPayload : IsPayload 5 read_two
read_two-IsPayload = record { inside = omega arith; room = omega arith; bytes = ground arith }

pub read_input-IsPayload : IsPayload 5 read_input
read_input-IsPayload = record { inside = omega arith; room = omega arith; bytes = ground arith }

pub write_one-IsPayload : IsPayload 5 write_one
write_one-IsPayload = record { inside = omega arith; room = omega arith; bytes = ground arith }

pub write_two-IsPayload : (n : ℕ) → n ≤ 9 → IsPayload n write_two
write_two-IsPayload n h = record { inside = omega arith; room = omega arith; bytes = ground arith }

pub read_far-IsPayload : IsPayload 5 read_far
read_far-IsPayload = record { inside = omega arith; room = omega arith; bytes = ground arith }

pub weaker : (v : View) → IsPayload 5 v → IsPayload 4 v
weaker v p = record { inside = p.inside; room = omega (arith, p.room); bytes = p.bytes }

-- The requests, as they are received.
abbrev pub frame_of : Function → View → Frame
frame_of f v = request 9 f 6 v

pub read_two_crc :
    frame_crc_is_valid plain (frame_of read_multiple_holding_registers read_two) ≡ ok true
read_two_crc =
    frame_crc_is_valid_lem plain plain_laws (frame_of read_multiple_holding_registers read_two) 4
      refl (omega arith) (omega arith) (omega arith) (ground arith) (omega arith) (omega arith)

pub read_input_crc : frame_crc_is_valid plain (frame_of read_input_registers read_input) ≡ ok true
read_input_crc =
    frame_crc_is_valid_lem plain plain_laws (frame_of read_input_registers read_input) 4 refl
      (omega arith) (omega arith) (omega arith) (ground arith) (omega arith) (omega arith)

pub read_far_crc :
    frame_crc_is_valid plain (frame_of read_multiple_holding_registers read_far) ≡ ok true
read_far_crc =
    frame_crc_is_valid_lem plain plain_laws (frame_of read_multiple_holding_registers read_far) 4
      refl (omega arith) (omega arith) (omega arith) (ground arith) (omega arith) (omega arith)

pub write_one_crc :
    frame_crc_is_valid plain (frame_of write_single_holding_register write_one) ≡ ok true
write_one_crc =
    frame_crc_is_valid_lem plain plain_laws (frame_of write_single_holding_register write_one) 4
      refl (omega arith) (omega arith) (omega arith) (ground arith) (omega arith) (omega arith)

pub write_two_crc :
    frame_crc_is_valid plain (request 9 write_multiple_holding_registers 11 write_two) ≡ ok true
write_two_crc =
    frame_crc_is_valid_lem plain plain_laws
      (request 9 write_multiple_holding_registers 11 write_two) 9 refl (omega arith) (omega arith)
      (omega arith) (ground arith) (omega arith) (omega arith)

pub refused : illegal_data_address ≢ ack
refused e = ground arith

-- Two fields, of two registers and of one, in six bytes.
abbrev pub two_fields : MemoryController (List ℕ)
two_fields = record {
  offsets = λ m. 0 ∷ 2 ∷ [];
  end_points = λ m. 1 ∷ 2 ∷ [];
  set_field = λ m identifier v. ok (write_at m (4 * identifier) v.storage);
  get_field = λ m identifier v. ok (record v { storage = range m (4 * identifier) v.size });
}

abbrev pub mapped : MappedRegisterDataStore (List ℕ)
mapped = record { new_data = false; memory_controller = 1 ∷ 2 ∷ 3 ∷ 4 ∷ 5 ∷ 6 ∷ [] }

abbrev pub begins : List ℕ
begins = 0 ∷ 2 ∷ []

-- One block of two registers at address 0, and a reader's buffer.
abbrev pub block : U8Field
block = record {
  address = 0;
  field_length = 2;
  buffer = record { bytes = 1 ∷ 2 ∷ 3 ∷ 4 ∷ []; size = 4 };
}

abbrev pub reader : U8Buffer
reader = record { bytes = 0 ∷ 0 ∷ 0 ∷ 0 ∷ []; size = 4 }

pub slave-IsServing : IsServing 9 slave
slave-IsServing = record {
  store = store-IsStore;
  reach = omega arith;
  byte = omega arith;
  mine = refl;
}

pub slave-IsIdle : IsIdle slave
slave-IsIdle = record {
  calm = refl;
  empty = refl;
  window = record {
    whole = refl;
    inside = omega arith;
    bytes = replicate-IsByte 256 0 (omega arith);
  };
}
