-- ===== src/ModbusRtu/Slave.antt =====
-- include/Modbus/ModbusRtu/ModbusRtuSlave.h and Utilities.h: SlaveProtocolBase and ProtocolRtuSlave,
-- over a holding and an input register store.
pub mod Validate
pub mod Errors
pub mod Replies
pub mod Commands
pub mod Receive
pub mod Overflow
pub mod Handled
pub mod Sound
use modbus_basic.Common.{
  ℕ, ◌+◌, List, [], ◌∷◌, Bool, true, false, not, ◌||◌, Result, ok, ◌>>=◌, ◌==◌, if◌then◌else◌,
  replicate, ℤ, pos, negsuc, is_zero,
}
use modbus_basic.External.{External}
use modbus_basic.View.{view_of}
use modbus_basic.Modbus
use modbus_basic.Modbus.Function.{
  Function, Exception, exception_code, illegal_function, ack, AddressSpace, ◌==f◌, coil,
  discrete_input, input_register, holding_register, system_status, device_identifier, unmapped,
  get_error_function, get_address_space_from_function, read_multiple_holding_registers,
  read_input_registers, write_single_holding_register, write_multiple_holding_registers,
}
use modbus_basic.Modbus.Frame
use modbus_basic.Modbus.Frame.{Frame, empty_frame, frame_over}
use modbus_basic.Modbus.Response
use modbus_basic.Modbus.Response.{Response, new_response, set_length, put}
use modbus_basic.DataStores.{DataStore, CallbackStore}
use modbus_basic.RegisterControl.HoldingController
use modbus_basic.RegisterControl.HoldingController.{Outcome}
use modbus_basic.RegisterControl.InputController
use modbus_basic.ModbusRtu.ReadContext
use modbus_basic.ModbusRtu.ReadContext.{ReadContext, process_character}
use modbus_basic.ModbusRtu.Protocol.{frame_crc_is_valid, frame_response}

-- `class SlaveProtocolBase`; `frame_data_` is the array behind the view of `framein`.
pub record SlaveProtocolBase : Type 0 where
  pub response : Response
  pub response_valid : Bool
  pub framein : Frame
  pub ctx : ReadContext

abbrev pub new_base : SlaveProtocolBase
new_base = record {
  response = new_response;
  response_valid = false;
  framein = frame_over (view_of (replicate 256 0));
  ctx = ReadContext.reset;
}

-- `class ProtocolRtuSlave`, with the stores that its controllers refer to.
pub record Slave (H I : Type 0) : Type 0 where
  pub base : SlaveProtocolBase
  pub slave_address : ℕ
  pub holding : H
  pub input : I

-- `implimented_functions_`
abbrev pub implimented_functions : List Function
implimented_functions =
    read_multiple_holding_registers ∷ read_input_registers ∷ write_single_holding_register
    ∷ write_multiple_holding_registers ∷ []

-- `InList`
abbrev pub in_list : Function → List Function → Bool
in_list item [] = false
in_list item (f ∷ fs) = if item ==f f then true else in_list item fs

abbrev pub set_response : Response → SlaveProtocolBase → SlaveProtocolBase
set_response response b = record b { response = response }

abbrev pub set_response_valid : Bool → SlaveProtocolBase → SlaveProtocolBase
set_response_valid on b = record b { response_valid = on }

abbrev pub reset_response : SlaveProtocolBase → SlaveProtocolBase
reset_response b = record b { response_valid = false; response = Response.reset b.response }

abbrev pub set_address : {H I : Type 0} → ℕ → Slave H I → Slave H I
set_address slave_address s = record s { slave_address = slave_address }

module _ (x : External) where
  -- `SlaveProtocolBase::SendErrorResponse`
  unfoldable pub send_error_response :
      Frame → Exception → SlaveProtocolBase → Result SlaveProtocolBase
  send_error_response frame exception b = do
    let error_frame = record empty_frame {
      address = frame.address;
      function = get_error_function frame.function;
    }
    coded ← put x new_response (Modbus.response_header_end + 1) (exception_code exception)
    framed ← frame_response x error_frame (set_length (Modbus.response_header_end + 2) coded)
    ok (record b { response = framed; response_valid = true })

  -- `SlaveProtocolBase::ResetRead`
  unfoldable pub reset_read : SlaveProtocolBase → Result SlaveProtocolBase
  reset_read b = do
    frame ← Frame.reset x b.framein
    ok (record (reset_response b) { ctx = ReadContext.reset; framein = frame })

module _ {H I : Type 0} (x : External) (h : CallbackStore H) (i : DataStore I) where
  -- `SlaveProtocolBase::ProcessCharacter`
  unfoldable pub slave_process_character : ℕ → Slave H I → Result (Slave H I)
  slave_process_character pt s = do
    next ← process_character x s.base.ctx s.base.framein pt
    ok (record s { base = record s.base { ctx = next.0; framein = next.1 } })

  -- `ProtocolRtuSlave::Reset`
  unfoldable pub slave_reset : Slave H I → Result (Slave H I)
  slave_reset s = do b ← reset_read x (reset_response s.base); ok (record s { base = b })

  -- The `switch` of `RunCommand`: the status, the two stores and the response.
  unfoldable pub run_in_space : AddressSpace → Slave H I → Frame → Result (ℤ × H × I × Response)
  run_in_space input_register s frame = do
    out ← InputController.read_frame x i s.input frame new_response
    ok (out.0, s.holding, out.1, out.2)
  run_in_space holding_register s frame = do
    out ← HoldingController.read_frame x h s.holding frame new_response
    ok (out.0, out.1, s.input, out.2)
  run_in_space coil s frame = ok (negsuc 0, s.holding, s.input, new_response)
  run_in_space discrete_input s frame = ok (negsuc 0, s.holding, s.input, new_response)
  run_in_space system_status s frame = ok (negsuc 0, s.holding, s.input, new_response)
  run_in_space device_identifier s frame = ok (negsuc 0, s.holding, s.input, new_response)
  run_in_space unmapped s frame = ok (negsuc 0, s.holding, s.input, new_response)

  -- `RunCommand`, with the status that it returns.
  unfoldable pub run_command : Slave H I → Frame → Result (ℤ × Slave H I)
  run_command s frame = do
    space ← get_address_space_from_function x frame.function
    out ← run_in_space space s frame
    let stored = record s { holding = out.1; input = out.2 }
    if is_zero out.0
        then (do
          framed ← frame_response x frame out.3
          ok (out.0, record stored { base = set_response framed (set_response_valid true s.base) }))
        else ok (out.0, record stored { base = set_response out.3 s.base })

  -- The `switch` of `ValidateMessage`.
  unfoldable pub validate_in_space : AddressSpace → Slave H I → Frame → Result Exception
  validate_in_space input_register s frame = InputController.validate_frame x i s.input frame
  validate_in_space holding_register s frame = HoldingController.validate_frame x h s.holding frame
  validate_in_space coil s frame = ok illegal_function
  validate_in_space discrete_input s frame = ok illegal_function
  validate_in_space system_status s frame = ok illegal_function
  validate_in_space device_identifier s frame = ok illegal_function
  validate_in_space unmapped s frame = ok illegal_function

  -- `ValidateMessage`
  unfoldable pub validate_message : Slave H I → Frame → Result Exception
  unfolding validate_in_space
  validate_message s frame =
      if not (in_list frame.function implimented_functions) then ok illegal_function else (do
        space ← get_address_space_from_function x frame.function
        validate_in_space space s frame)

  -- What `ProcessMessage` does with a frame that is for this slave and whose CRC is right.
  unfoldable pub answer : Exception → Slave H I → Frame → Result (Slave H I)
  answer ack s frame = do out ← run_command s frame; ok out.1
  answer exception s frame = do
    b ← send_error_response x frame exception s.base
    ok (record s { base = b })

  -- `ProcessMessage`
  unfoldable pub process_message : Bool → Slave H I → Result (Slave H I)
  process_message filter_address s = do
    let frame = s.base.framein
    exception ← validate_message s frame
    if (s.slave_address == frame.address) || not filter_address
        then (do
          valid ← frame_crc_is_valid x frame
          if valid then answer exception s frame else ok s)
        else ok s

  -- `ProcessMessageNoAddress`
  abbrev pub process_message_no_address : Slave H I → Result (Slave H I)
  process_message_no_address s = process_message false s

  -- The bytes of a packet, handed to the slave one after another.
  unfoldable pub receive : List ℕ → Slave H I → Result (Slave H I)
  receive [] s = ok s
  receive (pt ∷ pts) s = do s' ← slave_process_character pt s; receive pts s'
