-- ===== src/Witnesses/Endurance.antt =====
-- Concrete runs of the theorems: whatever comes in, and too much of it.
use modbus_basic.Common.{◌≡◌, refl, true, false, [], ◌∷◌, ok, err, out_of_bounds, arith, replicate}
use modbus_basic.View.{View, view_of}
use modbus_basic.Modbus.Function.{read_multiple_holding_registers}
use modbus_basic.DataStores.Updating.{updating_store, register_store}
use modbus_basic.ModbusRtu.Protocol.{frame_crc_is_valid}
use modbus_basic.ModbusRtu.Protocol.Framing.{frame_crc_is_valid_lem}
use modbus_basic.ModbusRtu.Slave.{process_message}
use modbus_basic.ModbusRtu.Slave.Validate.{RegisterSlave}
use modbus_basic.ModbusRtu.Slave.Errors.{request, with_request}
use modbus_basic.ModbusRtu.Slave.Overflow.{process_message_read_holding-outside}
use modbus_basic.ModbusRtu.Slave.Sound.{IsSound}
use modbus_basic.ModbusRtu.Slave.Sound.Reachable.{Event, Reaches, Goes, happens, Reaches-Goes}
use modbus_basic.Exchange.Session.{calmed, slave_reset-IsIdle}
use modbus_basic.Linux.Run.Endurance.Rounds.{Endures, rounds-Endures}
use modbus_basic.Linux.Run.Packets.{packets}
use modbus_basic.Witnesses.{plain, plain_laws, slave, slave-IsIdle, slave-IsServing}
use modbus_basic.Witnesses.Lines.{wire, wire_laws, machine, two, rounds_17}

slave-IsSound : IsSound slave
slave-IsSound = record {
  stores = record { holding_count = omega arith; input_count = omega arith; flag_count = refl };
  own = omega arith;
  sendable = (refl, omega arith);
  clean = record { window = slave-IsIdle.window; byte = omega arith; named = tt };
  receiving = (refl, refl);
}

-- A slave that was reset, given a byte.
Reaches-Goes_example :
    IsSound (calmed slave) × Goes (happens plain (Event.character 9) (calmed slave))
Reaches-Goes_example =
    Reaches-Goes plain plain_laws slave (calmed slave) (Event.character 9) slave-IsSound
      (Reaches.step Event.reset Reaches.start tt
        (slave_reset-IsIdle plain plain_laws 9 slave slave-IsIdle.window slave-IsServing).0)
      (omega arith, (λ e. ground arith), tt)

rounds-Endures_example :
    Endures plain plain_laws wire wire_laws
      (omega arith)
      301
      (omega arith)
      rounds_17
      machine
      (packets plain 9 two)
rounds-Endures_example =
    rounds-Endures plain plain_laws wire wire_laws (omega arith) 301 (omega arith) rounds_17 machine
      (packets plain 9 two) (ground arith)
      (record {
        sound = slave-IsSound;
        outs = 5 ∷ [];
        at_round = record {
          slave = refl;
          input = refl;
          output = refl;
          fits = omega arith;
          small = omega arith;
        };
      })

-- A slave with 200 holding registers, asked for 127 of them.
abbrev large : RegisterSlave
large = record slave {
  holding = record { base = record { registers = replicate 200 7 }; flags = replicate 200 false };
}

abbrev read_many : View
read_many = view_of (0 ∷ 0 ∷ 0 ∷ 127 ∷ 0 ∷ 139 ∷ [])

read_many-crc :
    frame_crc_is_valid plain (request 9 read_multiple_holding_registers 6 read_many) ≡ ok true
read_many-crc =
    frame_crc_is_valid_lem plain plain_laws (request 9 read_multiple_holding_registers 6 read_many)
      4 refl (omega arith) (omega arith) (omega arith) (ground arith) (omega arith) (omega arith)

process_message_read_holding-outside_example :
    process_message plain
      (updating_store plain)
      (register_store plain)
      true
      (with_request large (request 9 read_multiple_holding_registers 6 read_many))
    ≡ err out_of_bounds
process_message_read_holding-outside_example =
    process_message_read_holding-outside plain plain_laws large
      (record { holding_size = omega arith; input_size = omega arith })
      (record { reach = omega arith; flagged = refl }) 9 6 read_many
      (record { inside = omega arith; room = omega arith; bytes = ground arith }) refl read_many-crc
      (omega arith) (omega arith)
