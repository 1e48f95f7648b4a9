-- ===== src/ModbusRtu/Slave/Overflow.antt =====
-- include/Modbus/ModbusRtu/ModbusRtuSlave.h: requests for more registers than a response has room for.
use modbus_basic.Common.{
  ℕ, ◌+◌, ◌≤◌, ◌<◌, ◌≡◌, refl, true, ok, err, out_of_bounds, ◌==◌, arith, length, ==_refl,
}
use modbus_basic.External.{External, IsExternal}
use modbus_basic.View.{View}
use modbus_basic.Modbus.Function.{read_multiple_holding_registers, get_address_space_from_function}
use modbus_basic.Modbus.Frame.{Frame}
use modbus_basic.Modbus.Response.{new_response}
use modbus_basic.DataStores.Updating.{register_store, updating_store}
use modbus_basic.RegisterControl.HoldingController
use modbus_basic.RegisterControl.HoldingController.Runs.{word, IsStore, IsPayload}
use modbus_basic.RegisterControl.HoldingController.Overflow.{run_read_multiple-outside}
use modbus_basic.ModbusRtu.Protocol.{frame_crc_is_valid}
use modbus_basic.ModbusRtu.Slave.{process_message, run_command, run_in_space, answer}
use modbus_basic.ModbusRtu.Slave.Validate.{RegisterSlave}
use modbus_basic.ModbusRtu.Slave.Replies.{in_store_lem}
use modbus_basic.ModbusRtu.Slave.Errors.{request, with_request, IsSized, judged}

module _ (x : External) (laws : IsExternal x) (s : RegisterSlave) (sized : IsSized s)
    (store : IsStore s.holding) (a n : ℕ) (v : View) (p : IsPayload 5 v)
    (mine : s.slave_address ≡ a) where
  -- A read of more than 126 holding registers, all in the store, for this slave and with a right
  -- CRC, is accepted and writes outside the response. The store has a flag for each register and at
  -- most 65536 registers, and the payload lies in memory with at least 5 bytes.
  pub process_message_read_holding-outside :
      frame_crc_is_valid x (request a read_multiple_holding_registers n v) ≡ ok true
      → 126 < word v 2
      → word v 0 + word v 2 ≤ length s.holding.base.registers
      → process_message x
          (updating_store x)
          (register_store x)
          true
          (with_request s (request a read_multiple_holding_registers n v))
        ≡ err out_of_bounds
  unfolding process_message answer run_command run_in_space get_address_space_from_function
      HoldingController.read_frame
  process_message_read_holding-outside good many h = rw (
    judged x laws s sized a n read_multiple_holding_registers v p tt,
    same,
    good,
    in_store_lem s.holding.base (word v 0) (word v 2) (omega arith) h,
    run_read_multiple-outside x laws s.holding store frame new_response
        (record { inside = p.inside; room = omega (arith, p.room); bytes = p.bytes }) refl many h,
  )
    where
      frame : Frame
      frame = request a read_multiple_holding_registers n v

      same : (s.slave_address == a) ≡ true
      same = rw mine (==_refl a)
