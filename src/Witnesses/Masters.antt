-- ===== src/Witnesses/Masters.antt =====
-- Concrete runs of the theorems: the test program with a device.
use modbus_basic.Common.{◌≡◌, refl, [], ◌∷◌, ◌++◌, ok, arith, replicate, range, write_at, pos}
use modbus_basic.Exchange.{Registers}
use modbus_basic.Maps.Input.Contents.{contents}
use modbus_basic.TestMaster.{
  Libmodbus, Master, main, text_fields, voltage_fields, reading_fields, written_fields, ones,
}
use modbus_basic.Maps.Input.Places.{input_map}
use modbus_basic.TestMaster.Remote.{IsLibmodbus}
use modbus_basic.TestMaster.Mirror.{bytes_of_fields, overwritten, main_lem}
use modbus_basic.Witnesses.{plain, plain_laws}
use modbus_basic.Witnesses.Maps.{conversion, conversion_laws}

abbrev remote : Registers
remote = record { holding = replicate 14 0; input = replicate 172 513 }

-- A context that is the device itself.
abbrev direct : Libmodbus Registers
direct = record {
  new_rtu = λ dev_name baudrate. remote;
  set_slave = λ c address. c;
  connect = λ c. (pos 0, c);
  set_debug = λ c level. c;
  set_response_timeout = λ c sec usec. c;
  set_byte_timeout = λ c sec usec. c;
  read_input_registers = λ c address count dest. (pos count, range c.input address count, c);
  read_registers = λ c address count dest. (pos count, range c.holding address count, c);
  write_registers = λ c address count values.
      (pos count, record c { holding = write_at c.holding address values });
  close = λ c. c;
}

abbrev direct_laws : IsLibmodbus direct
direct_laws = record {
  IsOnline = λ c. Unit;
  device = λ c. c;
  connected = λ c h. tt;
  debugged = λ c level h. (tt, refl);
  timed = λ c sec usec h. (tt, refl);
  timed_byte = λ c sec usec h. (tt, refl);
  input_read = λ c address count dest h some few room fits. (refl, refl, tt, refl);
  holding_read = λ c address count dest h some few room fits. (refl, refl, tt, refl);
  holding_written = λ c address values h some few words fits. (tt, refl);
  closed = λ c h. refl;
}

main_lem_example :
    (t : Master Registers) × (main plain direct (input_map conversion) [] 246 ≡ ok (pos 0, t))
    × (contents t.inregs.memory_controller
        ≡ bytes_of_fields remote (text_fields ++ voltage_fields ++ reading_fields))
    × (t.printed ≡ ones ∷ ones ∷ ones ∷ ones ∷ (0xffff ∷ []) ∷ ones ∷ ones ∷ [])
    × (direct_laws.device t.ctx
        ≡ record remote { holding = overwritten written_fields remote.holding })
main_lem_example =
    main_lem plain plain_laws direct direct_laws conversion conversion_laws [] 246 remote refl refl
      (omega arith) (omega arith)
