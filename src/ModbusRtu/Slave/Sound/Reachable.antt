-- ===== src/ModbusRtu/Slave/Sound/Reachable.antt =====
-- include/Modbus/ModbusRtu/ModbusRtuSlave.h: the states that a slave reaches when bytes come in, packets are
-- processed and resets happen in any order.
use modbus_basic.Common.{
  ℕ, ◌+◌, ◌≤◌, ◌<◌, ◌≡◌, ◌≢◌, refl, true, Result, ok, arith, IsByte, sym, subst, get_or,
}
use modbus_basic.External.{External, IsExternal}
use modbus_basic.Modbus.Function.{write_multiple_holding_registers}
use modbus_basic.Modbus.Frame.{Frame}
use modbus_basic.DataStores.Updating.{updating_store, register_store}
use modbus_basic.ModbusRtu.ReadContext.{ReadContext, PacketState, process_character}
use modbus_basic.ModbusRtu.ReadContext.Progress.{
  IsReceiving, packet_length, header_bytes, announced, process_character-IsReceiving,
}
use modbus_basic.ModbusRtu.ReadContext.Clean.{IsClean, process_character-IsClean}
use modbus_basic.ModbusRtu.Slave.{process_message, slave_process_character, slave_reset}
use modbus_basic.ModbusRtu.Slave.Validate.{RegisterSlave}
use modbus_basic.ModbusRtu.Slave.Errors.{request, with_request}
use modbus_basic.ModbusRtu.Slave.Receive.{with_input}
use modbus_basic.ModbusRtu.Slave.Handled.{IsKept}
use modbus_basic.ModbusRtu.Slave.Handled.Packets.{process_message-Handled}
use modbus_basic.ModbusRtu.Slave.Sound.{IsSound, Fits}
use modbus_basic.Exchange.Session.{slave_reset-IsIdle, calmed}
use modbus_basic.Exchange.Serving.{IsServing}

-- What happens to a slave: a byte comes in, a packet that is reported is processed, the slave is reset.
pub data Event : Type 0 where
  character : (pt : ℕ) → Event
  message reset : Event

-- A byte comes in while no packet is reported, and a packet is processed when it is, both while no
-- header announces a packet that is too long. A reset may come at any time.
abbrev pub Allowed : Event → RegisterSlave → Type 0
Allowed (character pt) s =
    IsByte pt × (s.base.ctx.state ≢ PacketState.done) × Fits s.base.ctx.state s.base.framein
Allowed message s = (s.base.ctx.state ≡ PacketState.done) × Fits s.base.ctx.state s.base.framein
Allowed reset s = Unit

module _ (x : External) where
  abbrev pub happens : Event → RegisterSlave → Result RegisterSlave
  happens (character pt) s = slave_process_character x (updating_store x) (register_store x) pt s
  happens message s = process_message x (updating_store x) (register_store x) true s
  happens reset s = slave_reset x (updating_store x) (register_store x) s

  -- The states that a slave reaches.
  pub data Reaches (s : RegisterSlave) : RegisterSlave → Type 0 where
    start : Reaches s s
    step :
        {t u : RegisterSlave} (e : Event)
        → Reaches s t
        → Allowed e t
        → happens e t ≡ ok u
        → Reaches s u

-- A run that ends in a state of which the invariant holds.
abbrev pub Goes : Result RegisterSlave → Type 0
Goes r = (u : RegisterSlave) × (r ≡ ok u) × IsSound u

header_bytes-le : (frame : Frame) → header_bytes frame ≤ 5
header_bytes-le frame = ground arith

packet_length-write_multiple :
    (frame : Frame)
    → frame.function ≡ write_multiple_holding_registers
    → packet_length frame ≡ get_or frame.data_array.storage (frame.data_array.start + 4) 0 + 7
packet_length-write_multiple frame e = rw e (omega arith)

kept-IsSound : (s t : RegisterSlave) → IsSound s → IsKept s t → IsSound t
kept-IsSound s t h k = record {
  stores = k.stores;
  own = subst IsByte (sym k.address) h.own;
  sendable = k.sendable;
  clean = subst IsClean (sym k.frame) h.clean;
  receiving =
      subst (λ (c : ReadContext). IsReceiving c.state c.bytes_to_read t.base.framein)
        (sym k.receiver)
        (subst (IsReceiving s.base.ctx.state s.base.ctx.bytes_to_read) (sym k.frame) h.receiving);
}

module _ (x : External) (laws : IsExternal x) (s : RegisterSlave) (h : IsSound s) where
  room_lem :
      (st : PacketState) (frame : Frame)
      → st ≢ PacketState.done
      → IsReceiving st s.base.ctx.bytes_to_read frame
      → Fits st frame
      → frame.data_length < 256
  room_lem PacketState.address frame ne (e, z) f = omega arith
  room_lem PacketState.function frame ne (e, z) f = omega arith
  room_lem PacketState.meta frame ne (e, below) f = omega (arith, header_bytes-le frame)
  room_lem PacketState.payload frame ne (e, above, below) f = omega arith
  room_lem PacketState.done frame ne i f = absurd (ne refl)

  pub character-IsSound :
      (pt : ℕ)
      → IsByte pt
      → s.base.ctx.state ≢ PacketState.done
      → Fits s.base.ctx.state s.base.framein
      → (taken : ReadContext × Frame) × (process_character x s.base.ctx s.base.framein pt
          ≡ ok taken)
        × IsSound (with_input s taken)
  character-IsSound pt b ne f =
      let room : s.base.framein.data_length < s.base.framein.data_array.size =
        omega (
          arith,
          h.clean.window.whole,
          room_lem s.base.ctx.state s.base.framein ne h.receiving f,
        ) in
      let (taken, eq, receiving, inside, same) =
        process_character-IsReceiving x laws s.base.ctx s.base.framein pt ne h.receiving
          h.clean.window.inside room in
      (
        taken,
        eq,
        record {
          stores = record {
            holding_count = h.stores.holding_count;
            input_count = h.stores.input_count;
            flag_count = h.stores.flag_count;
          };
          own = h.own;
          sendable = h.sendable;
          clean =
              process_character-IsClean x laws s.base.framein pt b h.clean room s.base.ctx taken eq;
          receiving = receiving;
        },
      )

  pub reset-IsSound :
      (slave_reset x (updating_store x) (register_store x) s ≡ ok (calmed s)) × IsSound (calmed s)
  reset-IsSound =
      let serving : IsServing s.slave_address s = record {
        store = record {
          reach = omega (arith, h.stores.holding_count);
          flagged = h.stores.flag_count;
        };
        reach = omega (arith, h.stores.input_count);
        byte = h.own;
        mine = refl;
      } in
      let (eq, idle, on) = slave_reset-IsIdle x laws s.slave_address s h.clean.window serving in
      (
        eq,
        record {
          stores = record {
            holding_count = h.stores.holding_count;
            input_count = h.stores.input_count;
            flag_count = h.stores.flag_count;
          };
          own = h.own;
          sendable = (refl, omega arith);
          clean = record { window = idle.window; byte = omega arith; named = tt };
          receiving = (refl, refl);
        },
      )

  pub message-Goes :
      s.base.ctx.state ≡ PacketState.done
      → Fits s.base.ctx.state s.base.framein
      → Goes (process_message x (updating_store x) (register_store x) true s)
  message-Goes done f =
      let frame : Frame = s.base.framein in
      let k : ℕ = header_bytes frame + announced frame in
      let count : frame.data_length ≡ k + 2 =
        (subst (λ st. IsReceiving st s.base.ctx.bytes_to_read frame) done h.receiving).1 in
      let (few, modest) = subst (λ st. Fits st frame) done f in
      let (t, eq, kept) =
        subst
          (λ n.
            (t : RegisterSlave) × (process_message x (updating_store x) (register_store x) true
                (with_request s (request frame.address frame.function n frame.data_array))
              ≡ ok t)
            × IsKept (with_request s (request frame.address frame.function n frame.data_array)) t)
          (sym count)
          (process_message-Handled x laws s frame.address k frame.data_array
            (record {
              stores = h.stores;
              sendable = h.sendable;
              payload = record {
                inside = h.clean.window.inside;
                room = omega (arith, h.clean.window.whole);
                bytes = h.clean.window.bytes;
              };
              byte = h.clean.byte;
              fits = omega arith;
              inside = omega (arith, h.clean.window.whole);
            })
            frame.function h.clean.named modest
            (λ e.
              omega (arith, few, packet_length-write_multiple frame e, h.clean.window.whole))) in
      (t, eq, kept-IsSound s t h kept)

-- A run that succeeds ends where it goes.
going : (r : Result RegisterSlave) (t : RegisterSlave) → Goes r → r ≡ ok t → IsSound t
going r t (u, e, h) g = subst IsSound (cc) h

module _ (x : External) (laws : IsExternal x) where
  happens-Goes : (s : RegisterSlave) (e : Event) → IsSound s → Allowed e s → Goes (happens x e s)
  unfolding slave_process_character
  happens-Goes s (character pt) h (b, ne, f) =
      let (taken, eq, sound) = character-IsSound x laws s h pt b ne f in
      (with_input s taken, rw eq refl, sound)
  happens-Goes s message h (done, f) = message-Goes x laws s h done f
  happens-Goes s reset h a = let (eq, sound) = reset-IsSound x laws s h in (calmed s, eq, sound)

  Reaches-IsSound : {s t : RegisterSlave} → IsSound s → Reaches x s t → IsSound t
  Reaches-IsSound h start = h
  Reaches-IsSound h (step {t} {u} e r a eq) =
      going (happens x e t) u (happens-Goes t e (Reaches-IsSound h r) a) eq

  -- In every state that a slave reaches from one of which the invariant holds, the invariant holds, and
  -- whatever may happen next does not fault and keeps it: no byte that comes in, no packet that is
  -- processed, whatever it says and whomever it is for, and no reset. The invariant is that the stores
  -- are within 16-bit addresses, with a flag for each holding register, the frame holds bytes and fits the
  -- receiver's state and count, and the response can be sent. Bytes come in while no packet is reported,
  -- packets are processed when they are, and on the way no header announces more than 254 bytes of
  -- payload and CRC, and no packet that is processed asks to read more than 125 registers.
  pub Reaches-Goes :
      (s t : RegisterSlave) (e : Event)
      → IsSound s
      → Reaches x s t
      → Allowed e t
      → IsSound t × Goes (happens x e t)
  Reaches-Goes s t e h r a =
      let sound : IsSound t = Reaches-IsSound h r in (sound, happens-Goes t e sound a)
