-- ===== src/Linux/Run/Endurance.antt =====
-- examples/LinuxSlave/source/LinuxSlave.h: the parts of a round of `Run` on whatever bytes come in.
pub mod Rounds
use native.Mathlib.Decide.{dec_le}
use modbus_basic.Common.{
  ℕ, zero, suc, ◌+◌, ◌≤◌, ◌<◌, ◌≡◌, ◌≢◌, refl, true, false, List, [], ◌∷◌, ◌++◌, Result, ok, ◌>>=◌,
  arith, length, length-append, append-nil, ◌∙◌, ap, ap₂, sym, subst, length-range, range,
  Bool-cases, inl, inr, ◌⊎◌, All, IsByte,
}
use modbus_basic.External.{External, IsExternal}
use modbus_basic.View.{load_range}
use modbus_basic.View.Laws.{load_range_lem}
use modbus_basic.Modbus.Response.{Response}
use modbus_basic.Modbus.Frame.{Frame}
use modbus_basic.DataStores.Updating.{register_store, updating_store}
use modbus_basic.ModbusRtu.ReadContext.{
  ReadContext, PacketState, packet_received, process_character,
}
use modbus_basic.ModbusRtu.ReadContext.Progress.{packet_length}
use modbus_basic.ModbusRtu.Slave.{process_message}
use modbus_basic.ModbusRtu.Slave.Validate.{RegisterSlave}
use modbus_basic.ModbusRtu.Slave.Receive.{with_input}
use modbus_basic.ModbusRtu.Slave.Handled.{IsSendable, asked}
use modbus_basic.ModbusRtu.Slave.Sound.{IsSound, Fits}
use modbus_basic.ModbusRtu.Slave.Sound.Reachable.{
  Goes, character-IsSound, message-Goes, reset-IsSound,
}
use modbus_basic.Exchange.Session.{calmed}
use modbus_basic.Linux.Serial.{Device, IsDevice}
use modbus_basic.Linux.Tools.{Timeval}
use modbus_basic.Linux.Run.{
  run, rounds, check_packet, process_packet, take_character, rx_character_timeout,
}
use modbus_basic.Linux.Run.Steps.{Machine, IsAt, IsReady, io_lem, take_some}

-- A packet that announces more than the slave can check, or asks for more than it can answer.
abbrev pub IsLong : PacketState → Frame → Type 0
IsLong PacketState.payload frame = 254 < packet_length frame
IsLong PacketState.done frame =
    (254 < packet_length frame) ⊎ (125 < asked frame.function frame.data_array)
IsLong PacketState.address frame = ⊥
IsLong PacketState.function frame = ⊥
IsLong PacketState.meta frame = ⊥

measured : (limit n : ℕ) → (n ≤ limit) ⊎ (limit < n)
measured limit n = elim (dec_le n limit) [ yes few ↦ inl few | no many ↦ inr (omega arith) ]

both : {A B C D : Type 0} → A ⊎ C → B ⊎ D → (A × B) ⊎ (C ⊎ D)
both (inl a) (inl b) = inl (a, b)
both (inl a) (inr d) = inr (inr d)
both (inr c) other = inr (inl c)

pub Fits-or_IsLong : (st : PacketState) (frame : Frame) → Fits st frame ⊎ IsLong st frame
Fits-or_IsLong PacketState.address frame = inl tt
Fits-or_IsLong PacketState.function frame = inl tt
Fits-or_IsLong PacketState.meta frame = inl tt
Fits-or_IsLong PacketState.payload frame = measured 254 (packet_length frame)
Fits-or_IsLong PacketState.done frame =
    both (measured 254 (packet_length frame)) (measured 125 (asked frame.function frame.data_array))

received_or_not :
    (st : PacketState) (ctx : ReadContext)
    → ctx.state ≡ st
    → ((ctx.state ≡ PacketState.done) × (packet_received ctx ≡ true))
      ⊎ ((ctx.state ≢ PacketState.done) × (packet_received ctx ≡ false))
received_or_not PacketState.done ctx e = inl (e, rw e refl)
received_or_not PacketState.address ctx e = inr (rw e (λ f. ground arith), rw e refl)
received_or_not PacketState.function ctx e = inr (rw e (λ f. ground arith), rw e refl)
received_or_not PacketState.meta ctx e = inr (rw e (λ f. ground arith), rw e refl)
received_or_not PacketState.payload ctx e = inr (rw e (λ f. ground arith), rw e refl)

-- The bytes that are left after a number of rounds.
abbrev pub left_after : List Timeval → List ℕ → List ℕ
left_after [] ins = ins
left_after (now ∷ times) [] = []
left_after (now ∷ times) (b ∷ ins) = left_after times ins

module _ {B P : Type 0} (x : External) (laws : IsExternal x) (d : Device B P)
    (dl : IsDevice d) where
  abbrev pub Runs : Type 0
  Runs = Machine {B = B} {P = P} x laws d dl

  -- A machine in a round, with a sound slave that has no packet to report, and these bytes to take.
  pub record IsWaiting (m : Runs) (ins : List ℕ) : Type 0 where
    sound : IsSound m.slave
    fits : Fits m.slave.base.ctx.state m.slave.base.framein
    calm : m.slave.base.ctx.state ≢ PacketState.done
    outs : List ℕ
    ready : IsReady x laws d dl m ins outs

  -- A machine between two rounds, with a sound slave and these bytes to take.
  pub record IsRunning (l : Runs) (ins : List ℕ) : Type 0 where
    pub sound : IsSound l.slave
    pub outs : List ℕ
    pub at_round : IsAt x laws d dl l l.slave ins outs

module _ {B P : Type 0} (x : External) (laws : IsExternal x) (d : Device B P) (dl : IsDevice d)
    (roomy : 256 ≤ dl.room) where
  bytes_of :
      (r : Response)
      → IsSendable r
      → load_range r.data_ 0 r.length_ ≡ ok (range r.data_ 0 r.length_)
  bytes_of r h = load_range_lem r.data_ 0 r.length_ (omega arith)

  replied_lem :
      (m : Runs {B = B} {P = P} x laws d dl) (ins outs bytes : List ℕ) (s : RegisterSlave)
      → IsReady x laws d dl m ins outs
      → dl.contents m.iodev.txbuff ≡ []
      → length bytes ≤ 256
      → IsReady x laws d dl
          (record m {
            slave = s;
            iodev = record m.iodev { txbuff = d.write_all m.iodev.txbuff bytes };
          })
          ins
          (dl.line m.iodev.connection ++ dl.contents (d.write_all m.iodev.txbuff bytes))
  replied_lem m ins outs bytes s ready empty few =
      let queued : dl.contents (d.write_all m.iodev.txbuff bytes) ≡ bytes =
        dl.queued m.iodev.txbuff bytes (rw empty (omega arith)) ∙ ap (λ b. b ++ bytes) empty in
      record {
        unread = ready.unread;
        silent = ready.silent;
        output = refl;
        fits = ready.fits;
        small = rw queued (omega arith);
      }

  pub checked_lem :
      (m : Runs {B = B} {P = P} x laws d dl) (ins outs : List ℕ)
      → IsSound m.slave
      → Fits m.slave.base.ctx.state m.slave.base.framein
      → IsReady x laws d dl m ins outs
      → dl.contents m.iodev.txbuff ≡ []
      → (c : Runs {B = B} {P = P} x laws d dl) × (check_packet x
            (updating_store x)
            (register_store x)
            d
            m
          ≡ ok c)
        × IsWaiting x laws d dl c ins
  unfolding check_packet process_packet
  checked_lem m ins outs h f ready empty =
      elim (received_or_not m.slave.base.ctx.state m.slave.base.ctx refl) [
        | inr (calm, undone) ↦ (
          m,
          rw undone refl,
          record { sound = h; fits = f; calm = calm; outs = outs; ready = ready },
        )
        | inl (done, whole) ↦
            (let (t, eq, sound) = message-Goes x laws m.slave h done f in
              let r : Response = t.base.response in
              let (calm, fresh) = reset-IsSound x laws t sound in
              elim (Bool-cases t.base.response_valid) [
                | inl valid ↦ (
                  record m {
                    slave = calmed t;
                    iodev = record m.iodev {
                      txbuff = d.write_all m.iodev.txbuff (range r.data_ 0 r.length_);
                    };
                  },
                  rw (whole, eq, valid, bytes_of r sound.sendable, calm) refl,
                  record {
                    sound = fresh;
                    fits = tt;
                    calm = λ e. ground arith;
                    outs = _;
                    ready =
                        replied_lem m ins outs (range r.data_ 0 r.length_) (calmed t) ready empty
                          (omega (arith, length-range r.data_ 0 r.length_, sound.sendable));
                  },
                )
                | inr mute ↦ (
                  record m { slave = calmed t },
                  rw (whole, eq, mute, calm) refl,
                  record {
                    sound = fresh;
                    fits = tt;
                    calm = λ e. ground arith;
                    outs = outs;
                    ready = record {
                      unread = ready.unread;
                      silent = ready.silent;
                      output = ready.output;
                      fits = ready.fits;
                      small = ready.small;
                    };
                  },
                )
              ])
      ]

  unchanged :
      (m : Runs {B = B} {P = P} x laws d dl) (s : RegisterSlave) (outs : List ℕ)
      → IsSound s
      → IsReady x laws d dl m [] outs
      → IsRunning x laws d dl (record m { slave = s }) []
  unchanged m s outs h ready = record {
    sound = h;
    outs = outs;
    at_round = record {
      slave = refl;
      input = ap₂ ◌++◌ ready.unread ready.silent;
      output = ready.output;
      fits = ready.fits;
      small = ready.small;
    };
  }

  pub taken_lem :
      (now : Timeval) (m : Runs {B = B} {P = P} x laws d dl) (ins : List ℕ)
      → All IsByte ins
      → IsWaiting x laws d dl m ins
      → (l : Runs {B = B} {P = P} x laws d dl) × (take_character x
            (updating_store x)
            (register_store x)
            d
            now
            m
          ≡ ok l)
        × IsRunning x laws d dl l (left_after (now ∷ []) ins)
  unfolding take_character
  taken_lem now m (b ∷ ins) bytes h =
      let (taken, eq, sound) = character-IsSound x laws m.slave h.sound b bytes.0 h.calm h.fits in
      let (l, took, at_l) = take_some x laws d dl now m b ins h.outs taken h.ready eq in
      (
        l,
        took,
        record {
          sound = subst IsSound (sym at_l.slave) sound;
          outs = h.outs;
          at_round = record {
            slave = refl;
            input = at_l.input;
            output = at_l.output;
            fits = at_l.fits;
            small = at_l.small;
          };
        },
      )
  taken_lem now m [] bytes h =
      let (reset, fresh) = reset-IsSound x laws m.slave h.sound in
      elim (Bool-cases (rx_character_timeout m now)) [
        | inl late ↦ (
          record m { slave = calmed m.slave },
          rw (dl.unread m.iodev.rxbuff, h.ready.unread, late, reset) refl,
          unchanged m (calmed m.slave) h.outs fresh h.ready,
        )
        | inr early ↦ (
          m,
          rw (dl.unread m.iodev.rxbuff, h.ready.unread, early) refl,
          unchanged m m.slave h.outs h.sound h.ready,
        )
      ]
