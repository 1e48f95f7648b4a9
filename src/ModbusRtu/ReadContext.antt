-- ===== src/ModbusRtu/ReadContext.antt =====
-- include/Modbus/ModbusRtu/ModbusRtuProtocol.h: class ReadContext, the receiver's state machine, and
-- the functions that count the bytes of a packet.
pub mod Receive
pub mod Progress
pub mod Undone
pub mod Clean
use modbus_basic.Common.{
  ℕ, ◌+◌, List, [], ◌∷◌, Bool, true, false, Result, ok, ◌>>=◌, ◌>>◌, assert, if◌then◌else◌, ℤ, pos,
  pred_ℤ, nonpos, is_zero,
}
use modbus_basic.External.{External}
use modbus_basic.View.{view_get, view_set}
use modbus_basic.Modbus
use modbus_basic.Modbus.Function.{
  Function, ◌==f◌, read_multiple_holding_registers, read_input_registers,
  write_single_holding_register, write_multiple_holding_registers, function_code_is_valid,
  get_function,
}
use modbus_basic.Modbus.Frame.{Frame}
use modbus_basic.RegisterControl.WriteSingle
use modbus_basic.RegisterControl.ReadMultiple
use modbus_basic.RegisterControl.WriteMultiple

-- `enum class PacketState`
pub data PacketState : Type 0 where
  address function meta payload done : PacketState

unfoldable pub get_required_packet_size : Frame → ℕ
get_required_packet_size packet =
    Modbus.k_header_length + packet.data_length + Modbus.k_footer_length

abbrev pub calculate_meta_data_bytes_remaining : Function → ℕ
calculate_meta_data_bytes_remaining f =
    if f ==f read_multiple_holding_registers
    then ReadMultiple.command_packet_size
    else if f ==f read_input_registers
    then ReadMultiple.command_packet_size
    else if f ==f write_single_holding_register
    then WriteSingle.command_value_start
    else if f ==f write_multiple_holding_registers
    then WriteMultiple.command_value_start
    else 0

abbrev pub calculate_bytes_remaining : External → Frame → Result ℕ
calculate_bytes_remaining x frame =
    if frame.function ==f read_multiple_holding_registers
    then ok 0
    else if frame.function ==f read_input_registers
    then ok 0
    else if frame.function ==f write_single_holding_register
    then ok 2
    else if frame.function ==f write_multiple_holding_registers
    then view_get x frame.data_array WriteMultiple.command_number_of_data_bytes
    else ok 0

pub record ReadContext : Type 0 where
  pub state : PacketState
  pub bytes_to_read : ℤ  -- int32_t

-- `Reset`, and the members' initial values.
abbrev pub reset : ReadContext
reset = record { state = address; bytes_to_read = pos (Modbus.k_header_length + 1) }

abbrev pub packet_received : ReadContext → Bool
packet_received ctx = is_done ctx.state
  where
    is_done : PacketState → Bool
    is_done done = true
    is_done address = false
    is_done function = false
    is_done meta = false
    is_done payload = false

module _ (x : External) where
  -- `p_frame->data_array[p_frame->data_length++] = pt`
  pub push : Frame → ℕ → Result Frame
  push frame pt = do
    v ← view_set x frame.data_array frame.data_length pt
    ok (record frame { data_array = v; data_length = frame.data_length + 1 })

  -- What the last byte of the header that tells the length is followed by.
  abbrev pub start_data : Frame → ℕ → ReadContext
  start_data frame n = record {
    bytes_to_read = pos (n + Modbus.k_footer_length);
    state = if is_zero (pos (n + Modbus.k_footer_length)) then done else payload;
  }

  -- The `switch`, by the state, with `bytes_to_read_` already counted down.
  pub dispatch : PacketState → ℤ → Frame → ℕ → Result (ReadContext × Frame)
  dispatch address left frame pt =
      ok (record { state = function; bytes_to_read = left }, record frame { address = pt })
  dispatch function left frame pt =
      if function_code_is_valid pt
      then ok (
        record {
          state = meta;
          bytes_to_read = pos (calculate_meta_data_bytes_remaining (get_function pt));
        },
        record frame { function = get_function pt },
      )
      else ok (reset, frame)
  dispatch meta left frame pt = do
    pushed ← push frame pt
    if nonpos left
        then (do n ← calculate_bytes_remaining x pushed; ok (start_data pushed n, pushed))
        else ok (record { state = meta; bytes_to_read = left }, pushed)
  dispatch payload left frame pt = do
    pushed ← push frame pt
    ok (record { state = if nonpos left then done else payload; bytes_to_read = left }, pushed)
  dispatch done left frame pt = do assert x.ndebug false; ok (reset, frame)

  -- `ReadContext::ProcessCharacter`
  unfoldable pub process_character : ReadContext → Frame → ℕ → Result (ReadContext × Frame)
  process_character ctx frame pt = dispatch ctx.state (pred_ℤ ctx.bytes_to_read) frame pt

  -- A caller that hands over one byte after another.
  unfoldable pub process_all : ReadContext → Frame → List ℕ → Result (ReadContext × Frame)
  process_all ctx frame [] = ok (ctx, frame)
  process_all ctx frame (pt ∷ pts) = do
    next ← process_character ctx frame pt
    process_all next.0 next.1 pts
