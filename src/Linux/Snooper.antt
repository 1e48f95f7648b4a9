-- ===== src/Linux/Snooper.antt =====
-- examples/SerialSnooper/source/LinuxSlave.h: the LinuxSlave that listens to a line.
pub mod Discards
use modbus_basic.Common.{ℕ, Bool, true, false, not, Result, ok, ◌>>=◌, if◌then◌else◌}
use modbus_basic.External.{External}
use modbus_basic.DataStores.{DataStore, CallbackStore}
use modbus_basic.ModbusRtu.ReadContext.{PacketState, address, function, meta, payload, done}
use modbus_basic.ModbusRtu.Protocol.{frame_crc_is_valid}
use modbus_basic.ModbusRtu.Slave.{Slave, process_message, slave_process_character, slave_reset}
use modbus_basic.Linux.Serial.{Device, UartController, send_tx_buff, read_into_rx_buff}
use modbus_basic.Linux.Tools.{Timeval, get_micro_seconds_since, at_least}
use modbus_basic.Linux.Run.{LinuxSlave, k_frame_delay_us}

-- `GetContext().GetState() == Modbus::PacketState::kData`
abbrev pub is_payload : PacketState → Bool
is_payload payload = true
is_payload address = false
is_payload function = false
is_payload meta = false
is_payload done = false

-- `PacketIsReady`
unfoldable pub packet_is_ready : {B P H I : Type 0} → LinuxSlave B P H I → Timeval → Bool
packet_is_ready l timestamp =
    at_least (get_micro_seconds_since l.last_character_time timestamp) k_frame_delay_us

module _ {B P H I : Type 0} (x : External) (h : CallbackStore H) (i : DataStore I)
    (d : Device B P) where
  -- `ProcessPacket`
  unfoldable pub process_packet : LinuxSlave B P H I → Result (LinuxSlave B P H I)
  process_packet l = do
    processed ← process_message x h i true l.slave
    calm ← slave_reset x h i processed
    ok (record l { slave = calm })

  -- `CheckForCompletedPacket`, without what it prints.
  unfoldable pub check_for_completed_packet :
      Timeval → LinuxSlave B P H I → Result (LinuxSlave B P H I)
  check_for_completed_packet timestamp l =
      if packet_is_ready l timestamp
      then (do
        processed ←
            (if is_payload l.slave.base.ctx.state
              then (do
                valid ← frame_crc_is_valid x l.slave.base.framein
                if valid then process_packet l else ok l)
              else ok l)
        calm ← slave_reset x h i processed.slave
        ok (record processed { slave = calm }))
      else ok l

  -- `RunIO`
  unfoldable pub run_io : ℕ → LinuxSlave B P H I → Result (LinuxSlave B P H I)
  run_io fuel l = do
    sent ← send_tx_buff d fuel l.iodev
    filled ← read_into_rx_buff d fuel sent.1
    ok (record l { iodev = filled.1 })

  -- `Run`, with the two times that `GetTimeStamp` gives.
  unfoldable pub run : ℕ → Timeval → Timeval → LinuxSlave B P H I → Result (LinuxSlave B P H I)
  run fuel before now l = do
    ready ← run_io fuel l
    checked ← check_for_completed_packet before ready
    if not (d.rx_empty checked.iodev.rxbuff)
        then (do
          taken ← slave_process_character x h i (d.read_one checked.iodev.rxbuff).0 checked.slave
          ok (record checked {
            slave = taken;
            iodev = record checked.iodev { rxbuff = (d.read_one checked.iodev.rxbuff).1 };
            last_character_time = now;
          }))
        else ok checked
