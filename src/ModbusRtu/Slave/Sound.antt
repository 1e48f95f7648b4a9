-- ===== src/ModbusRtu/Slave/Sound.antt =====
-- include/Modbus/ModbusRtu/ModbusRtuSlave.h: what a slave keeps to, whatever comes in.
pub mod Reachable
use modbus_basic.Common.{
  ℕ, ◌+◌, ◌≤◌, ◌<◌, ◌≡◌, ◌≢◌, refl, true, List, [], ◌∷◌, Result, ok, ◌>>=◌, arith, length, set,
  IsByte, set-IsByte, length-set, All, if◌then◌else◌, Bool-cases, inl, inr, ap, ◌∙◌, sym, subst,
  pos, ℤ, max, get_or, nonpos,
}
use modbus_basic.External.{External, IsExternal}
use modbus_basic.View.{View, IsInside}
use modbus_basic.Modbus.Function.{
  Function, get_function, first_with_code, get_valid_functions, function_code_is_valid, code,
  write_multiple_holding_registers, ◌==f◌,
}
use modbus_basic.Modbus.Frame.{Frame}
use modbus_basic.ModbusRtu.ReadContext.{
  ReadContext, PacketState, dispatch, process_character, packet_received, calculate_bytes_remaining,
}
use modbus_basic.ModbusRtu.ReadContext.Receive.{with_byte, push_lem}
use modbus_basic.ModbusRtu.ReadContext.Progress.{
  IsReceiving, packet_length, header_bytes, announced,
}
use modbus_basic.ModbusRtu.ReadContext.Clean.{IsClean}
use modbus_basic.ModbusRtu.Slave.Validate.{RegisterSlave, IsNamed}
use modbus_basic.ModbusRtu.Slave.Handled.{asked, IsAddressed, IsSendable, IsHeld, IsKept}
use modbus_basic.Exchange.Arrival.{IsWindow}

-- The invariant: stores within 16-bit addresses with a flag for each register, a response that can be sent, and a frame that
-- fits the receiver's state and count.
pub record IsSound (s : RegisterSlave) : Type 0 where
  pub stores : IsAddressed s
  pub own : IsByte s.slave_address
  pub sendable : IsSendable s.base.response
  pub clean : IsClean s.base.framein
  pub receiving : IsReceiving s.base.ctx.state s.base.ctx.bytes_to_read s.base.framein

-- A packet that the slave can take: at most 254 bytes of payload and CRC, and no more than 125 registers
-- to read.
abbrev pub Fits : PacketState → Frame → Type 0
Fits PacketState.address frame = Unit
Fits PacketState.function frame = Unit
Fits PacketState.meta frame = Unit
Fits PacketState.payload frame = packet_length frame ≤ 254
Fits PacketState.done frame =
    (packet_length frame ≤ 254) × (asked frame.function frame.data_array ≤ 125)
