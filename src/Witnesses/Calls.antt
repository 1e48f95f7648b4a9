-- ===== src/Witnesses/Calls.antt =====
-- Concrete runs of the theorems: a master and a slave together.
use modbus_basic.Common.{
  ◌≡◌, refl, true, [], ◌∷◌, ok, arith, replicate, replicate-IsByte, range, ◌>>=◌,
}
use modbus_basic.View.{View, view_of}
use modbus_basic.Modbus.Frame.{Frame, frame_over}
use modbus_basic.DataStores.Updating.{updating_store, register_store}
use modbus_basic.ModbusRtu.Protocol.{frame_packet, view_crc_is_valid}
use modbus_basic.ModbusRtu.Protocol.Reply.{sent}
use modbus_basic.ModbusRtu.Slave.{receive, process_message}
use modbus_basic.ModbusRtu.Slave.Validate.{RegisterSlave}
use modbus_basic.Exchange.{read_holding, values_read}
use modbus_basic.Exchange.Serving.{registers_of}
use modbus_basic.Exchange.Command.{fill_command}
use modbus_basic.Exchange.Reading.{Reads}
use modbus_basic.Exchange.Call.{IsWords, call_lem}
use modbus_basic.Witnesses.{plain, plain_laws, slave, slave-IsServing, slave-IsIdle}

abbrev master_frame : Frame
master_frame = record (frame_over (view_of (replicate 256 0))) { address = 9 }

slave-IsWords : IsWords (registers_of slave)
slave-IsWords = record { holding = ground arith; input = ground arith }

call_lem_example :
    (filled : Frame) × (buffer : View) × (t : RegisterSlave) × (fill_command plain
        (read_holding 1 2)
        master_frame
      ≡ ok filled)
    × (frame_packet plain filled (view_of (replicate 8 0)) ≡ ok buffer)
    × ((do
      u ←
          receive plain
            (updating_store plain)
            (register_store plain)
            (range buffer.storage 0 8)
            slave
      process_message plain (updating_store plain) (register_store plain) true u)
        ≡ ok t)
    × (registers_of t ≡ registers_of slave)
    × (t.base.response_valid ≡ true)
    × (view_crc_is_valid plain (view_of (sent t.base.response)) ≡ ok true)
    × Reads plain (read_holding 1 2) (values_read (20 ∷ 30 ∷ [])) (view_of (sent t.base.response))
call_lem_example =
    call_lem plain plain_laws slave (read_holding 1 2) master_frame (replicate 8 0) slave-IsServing
      slave-IsIdle slave-IsWords (omega arith, omega arith, omega arith) slave-IsIdle.window
      (replicate-IsByte 8 0 (omega arith)) refl
