-- ===== src/Linux/Run/Steps.antt =====
-- examples/LinuxSlave/source/LinuxSlave.h: the parts of one round of `Run`.
use modbus_basic.Common.{
  ℕ, ◌+◌, ◌≤◌, ◌<◌, ◌≡◌, refl, List, [], ◌∷◌, ◌++◌, ok, ◌>>=◌, arith, length, length-append,
  append-nil, ◌∙◌, ap, ap₂, sym, Bool-cases, inl, inr,
}
use modbus_basic.External.{External, IsExternal}
use modbus_basic.DataStores.Registers.{RegisterDataStore}
use modbus_basic.DataStores.Updating.{UpdatingRegisterDataStore, register_store, updating_store}
use modbus_basic.ModbusRtu.ReadContext.{process_character, ReadContext}
use modbus_basic.Modbus.Frame.{Frame}
use modbus_basic.ModbusRtu.Slave.{slave_process_character}
use modbus_basic.ModbusRtu.Slave.Validate.{RegisterSlave}
use modbus_basic.ModbusRtu.Slave.Receive.{with_input}
use modbus_basic.Exchange.Serving.{IsServing, registers_of}
use modbus_basic.Exchange.Session.{IsIdle, calmed, slave_reset-IsIdle}
use modbus_basic.Linux.Serial.{Device, IsDevice, send_tx_buff, read_into_rx_buff}
use modbus_basic.Linux.Serial.Loops.{send_from_lem, read_from_lem}
use modbus_basic.Linux.Tools.{Timeval}
use modbus_basic.Linux.Run.{LinuxSlave, run, check_packet, take_character, rx_character_timeout}

module _ {B P : Type 0} (x : External) (laws : IsExternal x) (d : Device B P)
    (dl : IsDevice d) where
  abbrev pub Machine : Type 0
  Machine = LinuxSlave B P UpdatingRegisterDataStore RegisterDataStore

  -- The bytes that have come and are not yet processed, and those that go out or have gone.
  abbrev pub input_of : Machine → List ℕ
  input_of l = dl.contents l.iodev.rxbuff ++ dl.waiting l.iodev.connection

  abbrev pub output_of : Machine → List ℕ
  output_of l = dl.line l.iodev.connection ++ dl.contents l.iodev.txbuff

  -- A machine between two rounds.
  pub record IsAt (l : Machine) (s : RegisterSlave) (ins outs : List ℕ) : Type 0 where
    pub slave : l.slave ≡ s
    pub input : input_of l ≡ ins
    pub output : output_of l ≡ outs
    pub fits : length ins ≤ dl.room
    pub small : length (dl.contents l.iodev.txbuff) ≤ dl.room

  -- A machine in a round whose buffers have been emptied and filled.
  pub record IsReady (m : Machine) (ins outs : List ℕ) : Type 0 where
    pub unread : dl.contents m.iodev.rxbuff ≡ ins
    pub silent : dl.waiting m.iodev.connection ≡ []
    pub output : output_of m ≡ outs
    pub fits : length ins ≤ dl.room
    pub small : length (dl.contents m.iodev.txbuff) ≤ dl.room

  pub io_lem :
      (fuel : ℕ) (now : Timeval) (l : Machine) (s : RegisterSlave) (ins outs : List ℕ)
      → dl.room < fuel
      → IsAt l s ins outs
      → (m : Machine) × (run x (updating_store x) (register_store x) d fuel now l ≡ (do
        checked ← check_packet x (updating_store x) (register_store x) d m
        take_character x (updating_store x) (register_store x) d now checked))
        × (m.slave ≡ s)
        × IsReady m ins outs
        × (dl.contents m.iodev.txbuff ≡ [])
  unfolding run send_tx_buff read_into_rx_buff
  io_lem fuel now l s ins outs wide h =
      let parts : length (dl.contents l.iodev.rxbuff) + length (dl.waiting l.iodev.connection)
          ≡ length ins =
        sym (length-append (dl.contents l.iodev.rxbuff) (dl.waiting l.iodev.connection))
        ∙ ap length h.input in
      let (u, sending, sent) =
        send_from_lem d dl (dl.contents l.iodev.txbuff) fuel 0 l.iodev refl
          (omega (arith, h.small)) in
      let (v, reading, read) =
        read_from_lem d dl (dl.waiting l.iodev.connection) fuel 0 u sent.waiting
          (omega (arith, h.fits, parts)) (rw sent.unread (omega (arith, h.fits, parts))) in
      (
        record l { iodev = v },
        rw (sending, reading),
        h.slave,
        record {
          unread = read.filled ∙ ap (λ b. b ++ dl.waiting l.iodev.connection) sent.unread ∙ h.input;
          silent = read.silent;
          output =
              ap₂ ◌++◌ (read.line ∙ sent.line) (read.unsent ∙ sent.flushed)
              ∙ append-nil (dl.line l.iodev.connection ++ dl.contents l.iodev.txbuff)
              ∙ h.output;
          fits = h.fits;
          small = rw (read.unsent, sent.flushed) (omega arith);
        },
        read.unsent ∙ sent.flushed,
      )

  -- A round that has a byte to take.
  pub take_some :
      (now : Timeval) (m : Machine) (b : ℕ) (bs outs : List ℕ) (next : ReadContext × Frame)
      → IsReady m (b ∷ bs) outs
      → process_character x m.slave.base.ctx m.slave.base.framein b ≡ ok next
      → (l : Machine) × (take_character x (updating_store x) (register_store x) d now m ≡ ok l)
        × IsAt l (with_input m.slave next) bs outs
  unfolding take_character slave_process_character
  take_some now m b bs outs next h taken =
      let (same, rest) = dl.next m.iodev.rxbuff b bs h.unread in
      (
        record m {
          slave = with_input m.slave next;
          iodev = record m.iodev { rxbuff = (d.read_one m.iodev.rxbuff).1 };
          last_character_time = now;
        },
        rw (dl.unread m.iodev.rxbuff, h.unread, same, taken),
        record {
          slave = refl;
          input = rw (rest, h.silent) (append-nil bs);
          output = h.output;
          fits = omega (arith, h.fits);
          small = h.small;
        },
      )

  -- A round that has none, which may find that the line has been silent for long.
  pub take_none :
      (now : Timeval) (m : Machine) (a : ℕ) (outs : List ℕ)
      → IsReady m [] outs
      → IsIdle m.slave
      → IsServing a m.slave
      → (l : Machine) × (take_character x (updating_store x) (register_store x) d now m ≡ ok l)
        × IsAt l l.slave [] outs
        × IsIdle l.slave
        × IsServing a l.slave
        × (registers_of l.slave ≡ registers_of m.slave)
  unfolding take_character
  take_none now m a outs h idle serving =
      let (calm, waits, serves) = slave_reset-IsIdle x laws a m.slave idle.window serving in
      let there : input_of m ≡ [] = ap₂ ◌++◌ h.unread h.silent in
      elim (Bool-cases (rx_character_timeout m now)) [
        | inl late ↦ (
          record m { slave = calmed m.slave },
          rw (dl.unread m.iodev.rxbuff, h.unread, late, calm),
          record { slave = refl; input = there; output = h.output; fits = h.fits; small = h.small },
          waits,
          serves,
          refl,
        )
        | inr early ↦ (
          m,
          rw (dl.unread m.iodev.rxbuff, h.unread, early),
          record { slave = refl; input = there; output = h.output; fits = h.fits; small = h.small },
          idle,
          serving,
          refl,
        )
      ]
