-- ===== src/Linux/Snooper/Discards.antt =====
-- examples/SerialSnooper/source/LinuxSlave.h: what becomes of a packet that has been received as a whole.
use modbus_basic.Common.{ℕ, ◌≡◌, refl, true, ok, arith, pos}
use modbus_basic.External.{External, IsExternal}
use modbus_basic.DataStores.Registers.{RegisterDataStore}
use modbus_basic.DataStores.Updating.{UpdatingRegisterDataStore, register_store, updating_store}
use modbus_basic.ModbusRtu.ReadContext.{PacketState, packet_received}
use modbus_basic.ModbusRtu.Slave.{receive}
use modbus_basic.ModbusRtu.Slave.Validate.{RegisterSlave}
use modbus_basic.ModbusRtu.Slave.Receive.{with_input, receive_lem}
use modbus_basic.Exchange.{Request, IsRequest, packet_of}
use modbus_basic.Exchange.Arrival.{IsWindow, frame_of, arrived-IsPayload}
use modbus_basic.Exchange.Serving.{IsServing, registers_of}
use modbus_basic.Exchange.Session.{IsIdle, calmed, slave_reset-IsIdle, arrives}
use modbus_basic.Linux.Serial.{Device}
use modbus_basic.Linux.Tools.{Timeval}
use modbus_basic.Linux.Run.{LinuxSlave}
use modbus_basic.Linux.Snooper.{packet_is_ready, check_for_completed_packet}

module _ {B P : Type 0} (x : External) (laws : IsExternal x) (d : Device B P) where
  abbrev pub Snooper : Type 0
  Snooper = LinuxSlave B P UpdatingRegisterDataStore RegisterDataStore

  -- A listening machine, idle and serving at an address, that has received the whole packet of a
  -- request for that address within the protocol's limits, reports the packet, and when the line
  -- has then been silent for a frame's delay, its check resets the slave and does not process the
  -- request: the registers are as before.
  pub check_for_completed_packet-discards :
      (a : ℕ) (l : Snooper) (q : Request) (now : Timeval)
      → IsIdle l.slave
      → IsServing a l.slave
      → IsRequest q
      → packet_is_ready l now ≡ true
      → (u : RegisterSlave) × (receive x
            (updating_store x)
            (register_store x)
            (packet_of x a q)
            l.slave
          ≡ ok u)
        × (packet_received u.base.ctx ≡ true)
        × (check_for_completed_packet x
              (updating_store x)
              (register_store x)
              d
              now
              (record l { slave = u })
            ≡ ok (record l { slave = calmed u }))
        × IsIdle (calmed u)
        × (registers_of (calmed u) ≡ registers_of l.slave)
  unfolding check_for_completed_packet packet_is_ready
  check_for_completed_packet-discards a l q now idle serving valid late =
      let (calm, waits, serves) = slave_reset-IsIdle x laws a there window (record {
        store = serving.store;
        reach = serving.reach;
        byte = serving.byte;
        mine = serving.mine;
      }) in
      (
        there,
        rw
            (
              receive_lem x (updating_store x) (register_store x) (packet_of x a q) l.slave,
              arrives x laws a l.slave q idle valid,
            )
            refl,
        refl,
        rw (late, calm) refl,
        waits,
        refl,
      )
    where
      there : RegisterSlave
      there = with_input l.slave (
        record { state = PacketState.done; bytes_to_read = pos 0 },
        frame_of x l.slave.base.framein.data_array a q,
      )

      window : IsWindow there.base.framein.data_array
      window = record {
        whole = idle.window.whole;
        inside =
            (arrived-IsPayload x laws l.slave.base.framein.data_array idle.window a serving.byte q
              valid 5 (omega arith)).inside;
        bytes =
            (arrived-IsPayload x laws l.slave.base.framein.data_array idle.window a serving.byte q
              valid 5 (omega arith)).bytes;
      }
