-- ===== src/Linux/Run/Checks.antt =====
-- examples/LinuxSlave/source/LinuxSlave.h: what the first test of `Run` makes of the slave.
use modbus_basic.Common.{
  ℕ, ◌+◌, ◌/◌, ◌%◌, ◌≤◌, ◌≡◌, refl, List, [], ◌∷◌, ◌++◌, ok, arith, length, length-append,
  append-nil, ◌∙◌, ap, sym, length-range, length-encode_words, range, pos, leb, Bool-cases, inl,
  inr,
}
use modbus_basic.External.{External, IsExternal}
use modbus_basic.View.{load_range}
use modbus_basic.View.Laws.{load_range_lem}
use modbus_basic.Modbus.Response.{Response}
use modbus_basic.DataStores.Updating.{register_store, updating_store}
use modbus_basic.ModbusRtu.ReadContext.{PacketState}
use modbus_basic.ModbusRtu.Protocol.Crc.{with_crc}
use modbus_basic.ModbusRtu.Protocol.Reply.{IsFramed}
use modbus_basic.ModbusRtu.Slave.Validate.{RegisterSlave}
use modbus_basic.ModbusRtu.Slave.Receive.{with_input}
use modbus_basic.Exchange.{
  Request, Registers, IsRequest, serve, reply_of, read_holding, read_input, write_single,
  write_multiple,
}
use modbus_basic.Exchange.Arrival.{IsWindow, frame_of}
use modbus_basic.Exchange.Answer.{answer}
use modbus_basic.Exchange.Serving.{IsServing, registers_of}
use modbus_basic.Exchange.Session.{IsIdle, calmed, slave_reset-IsIdle}
use modbus_basic.Linux.Serial.{Device, IsDevice}
use modbus_basic.Linux.Run.{check_packet, process_packet}
use modbus_basic.Linux.Run.Steps.{Machine, IsReady}

-- A reply to a request within the protocol's limits has at most 253 bytes.
length-reply_of :
    (a : ℕ) (q : Request) (r : Registers) → IsRequest q → length (reply_of a q (serve q r).1) ≤ 253
length-reply_of a (read_holding address count) r h =
    elim (Bool-cases (leb (address + count) (length r.holding))) [
      | inl fits ↦ rw fits (
          omega (
            arith,
            length-encode_words (range r.holding address count),
            length-range r.holding address count,
          ))
      | inr over ↦ rw over (omega arith)
    ]
length-reply_of a (read_input address count) r h =
    elim (Bool-cases (leb (address + count) (length r.input))) [
      | inl fits ↦ rw fits (
          omega (
            arith,
            length-encode_words (range r.input address count),
            length-range r.input address count,
          ))
      | inr over ↦ rw over (omega arith)
    ]
length-reply_of a (write_single address value) r h =
    elim (Bool-cases (leb (address + 1) (length r.holding))) [
      | inl fits ↦ rw fits (omega arith)
      | inr over ↦ rw over (omega arith)
    ]
length-reply_of a (write_multiple address values) r h =
    elim (Bool-cases (leb (address + length values) (length r.holding))) [
      | inl fits ↦ rw fits (omega arith)
      | inr over ↦ rw over (omega arith)
    ]

module _ {B P : Type 0} (x : External) (laws : IsExternal x) (d : Device B P)
    (dl : IsDevice d) where
  -- A machine whose slave is `s` comes out of the test with an idle slave that serves at `a`, has the
  -- given registers and has sent the given bytes.
  abbrev pub Settles : ℕ → RegisterSlave → Registers → List ℕ → Type 0
  Settles a s registers bytes =
      (m : Machine {B = B} {P = P} x laws d dl) (ins outs : List ℕ)
      → m.slave ≡ s
      → IsReady x laws d dl m ins outs
      → dl.contents m.iodev.txbuff ≡ []
      → (c : Machine {B = B} {P = P} x laws d dl) × (check_packet x (updating_store x)
            (register_store x) d m
          ≡ ok c)
        × IsReady x laws d dl c ins (outs ++ bytes)
        × IsIdle c.slave
        × IsServing a c.slave
        × (registers_of c.slave ≡ registers)

  pub idle-Settles :
      (a : ℕ) (s : RegisterSlave) → IsIdle s → IsServing a s → Settles a s (registers_of s) []
  unfolding check_packet
  idle-Settles a s idle serving m ins outs e h empty =
      (m, rw (e, idle.calm), rw (append-nil outs) h, rw e idle, rw e serving, rw e refl)

  sent_bytes :
      (bytes : List ℕ) (r : Response)
      → IsFramed x bytes r
      → length bytes ≤ 254
      → (r.length_ ≡ length bytes + 2) × (load_range r.data_ 0 r.length_ ≡ ok (with_crc x bytes))
  sent_bytes bytes r framed few =
      let count : r.length_ ≡ length bytes + 2 =
        sym (length-range r.data_ 0 r.length_) ∙ ap length framed.0 ∙ length-append bytes _ in
      (count, load_range_lem r.data_ 0 r.length_ (omega (arith, framed.2)) ∙ ap ok framed.0)

  pub arrived-Settles :
      (a : ℕ) (s : RegisterSlave) (q : Request)
      → IsServing a s
      → IsWindow s.base.framein.data_array
      → IsRequest q
      → 256 ≤ dl.room
      → Settles a
          (with_input s (
            record { state = PacketState.done; bytes_to_read = pos 0 },
            frame_of x s.base.framein.data_array a q,
          ))
          (serve q (registers_of s)).0
          (with_crc x (reply_of a q (serve q (registers_of s)).1))
  unfolding check_packet process_packet
  arrived-Settles a s q serving window valid wide m ins outs e h empty =
      let reply : List ℕ = reply_of a q (serve q (registers_of s)).1 in
      let (t, eq, answered) =
        answer x laws s.base.framein.data_array window a
          (with_input s (
            record { state = PacketState.done; bytes_to_read = pos 0 },
            frame_of x s.base.framein.data_array a q,
          ))
          (record {
            store = serving.store;
            reach = serving.reach;
            byte = serving.byte;
            mine = serving.mine;
          })
          q valid in
      let (calm, waits, serves) = slave_reset-IsIdle x laws a t answered.window answered.serving in
      let (count, bytes) =
        sent_bytes reply t.base.response answered.framed
          (omega (arith, length-reply_of a q (registers_of s) valid)) in
      let queued : dl.contents (d.write_all m.iodev.txbuff (with_crc x reply)) ≡ with_crc x reply =
        dl.queued m.iodev.txbuff (with_crc x reply) (
          rw empty (
            omega (
              arith,
              length-reply_of a q (registers_of s) valid,
              length-append reply
                  (x.utilities_crc16 reply / 256 % 256 ∷ x.utilities_crc16 reply % 256 ∷ []),
            )))
        ∙ ap (λ b. b ++ with_crc x reply) empty in
      (
        record m {
          slave = calmed t;
          iodev = record m.iodev { txbuff = d.write_all m.iodev.txbuff (with_crc x reply) };
        },
        rw (e, eq, answered.ready, bytes, calm),
        record {
          unread = h.unread;
          silent = h.silent;
          output =
              ap (λ b. dl.line m.iodev.connection ++ b) queued
              ∙ ap (λ b. b ++ with_crc x reply)
                  (sym (append-nil (dl.line m.iodev.connection))
                    ∙ ap (λ b. dl.line m.iodev.connection ++ b) (sym empty)
                    ∙ h.output);
          fits = h.fits;
          small = rw queued (
              omega (
                arith,
                wide,
                length-reply_of a q (registers_of s) valid,
                length-append reply
                    (x.utilities_crc16 reply / 256 % 256 ∷ x.utilities_crc16 reply % 256 ∷ []),
              ));
        },
        waits,
        serves,
        answered.kept,
      )
