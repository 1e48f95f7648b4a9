-- ===== src/Linux/Run.antt =====
-- examples/LinuxSlave/source/LinuxSlave.h: class LinuxSlave, over the slave and the stores of include/.
pub mod Steps
pub mod Checks
pub mod Packets
pub mod Rounds
pub mod Endurance
use modbus_basic.Common.{
  ℕ, zero, suc, ◌*◌, Bool, true, false, not, List, [], ◌∷◌, Result, ok, ◌>>=◌, if◌then◌else◌,
}
use modbus_basic.External.{External}
use modbus_basic.View.{load_range}
use modbus_basic.Modbus.Response.{Response}
use modbus_basic.DataStores.{DataStore, CallbackStore}
use modbus_basic.ModbusRtu.ReadContext.{packet_received}
use modbus_basic.ModbusRtu.Slave.{Slave, process_message, slave_process_character, slave_reset}
use modbus_basic.Linux.Serial.{Device, UartController, send_tx_buff, read_into_rx_buff}
use modbus_basic.Linux.Tools.{Timeval, get_micro_seconds_since, at_least}

-- `class LinuxSlave : public SlaveBase`
pub record LinuxSlave (B P H I : Type 0) : Type 0 where
  pub slave : Slave H I
  pub iodev : UartController B P
  pub last_character_time : Timeval

-- `(1e6 * (kCharacterClocks * 3.5)) / kBaudRateHz`, truncated.
abbrev pub k_frame_delay_us : ℕ
k_frame_delay_us = 3281

-- `RxCharacterTimeout`
unfoldable pub rx_character_timeout : {B P H I : Type 0} → LinuxSlave B P H I → Timeval → Bool
rx_character_timeout l timestamp =
    at_least (get_micro_seconds_since l.last_character_time timestamp) (10 * k_frame_delay_us)

module _ {B P H I : Type 0} (x : External) (h : CallbackStore H) (i : DataStore I)
    (d : Device B P) where
  -- `ProcessPacket`, without what it prints and the assertion that it has printed `GetLength()` bytes.
  unfoldable pub process_packet : LinuxSlave B P H I → Result (LinuxSlave B P H I)
  process_packet l = do
    processed ← process_message x h i true l.slave
    bytes ←
        (if processed.base.response_valid
          then load_range processed.base.response.data_ 0 processed.base.response.length_
          else ok [])
    calm ← slave_reset x h i processed
    ok (record l {
      slave = calm;
      iodev =
          if processed.base.response_valid
          then record l.iodev { txbuff = d.write_all l.iodev.txbuff bytes }
          else l.iodev;
    })

  -- The first test of `Run`.
  unfoldable pub check_packet : LinuxSlave B P H I → Result (LinuxSlave B P H I)
  check_packet l = if packet_received l.slave.base.ctx then process_packet l else ok l

  -- The second, with the time that `GetTimeStamp` gives.
  unfoldable pub take_character : Timeval → LinuxSlave B P H I → Result (LinuxSlave B P H I)
  take_character now l =
      if not (d.rx_empty l.iodev.rxbuff)
      then (do
        taken ← slave_process_character x h i (d.read_one l.iodev.rxbuff).0 l.slave
        ok (record l {
          slave = taken;
          iodev = record l.iodev { rxbuff = (d.read_one l.iodev.rxbuff).1 };
          last_character_time = now;
        }))
      else if rx_character_timeout l now
      then (do calm ← slave_reset x h i l.slave; ok (record l { slave = calm }))
      else ok l

  -- `Run`
  unfoldable pub run : ℕ → Timeval → LinuxSlave B P H I → Result (LinuxSlave B P H I)
  run fuel now l = do
    sent ← send_tx_buff d fuel l.iodev
    filled ← read_into_rx_buff d fuel sent.1
    checked ← check_packet (record l { iodev = filled.1 })
    take_character now checked

  -- The loop of `main`, for the rounds that begin at the given times.
  unfoldable pub rounds : ℕ → List Timeval → LinuxSlave B P H I → Result (LinuxSlave B P H I)
  rounds fuel [] l = ok l
  rounds fuel (now ∷ times) l = do l' ← run fuel now l; rounds fuel times l'
