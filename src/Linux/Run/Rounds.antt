-- ===== src/Linux/Run/Rounds.antt =====
-- examples/LinuxSlave/source/LinuxSlave.h: rounds of `Run` on requests that come one behind the other.
use modbus_basic.Common.{
  ℕ, suc, ◌≤◌, ◌<◌, ◌≡◌, refl, List, [], ◌∷◌, ◌++◌, Result, ok, ◌>>=◌, arith, length, length-append,
  append_assoc, append-nil, ◌∙◌, subst, sym, All,
}
use modbus_basic.External.{External, IsExternal}
use modbus_basic.DataStores.Updating.{register_store, updating_store}
use modbus_basic.ModbusRtu.Protocol.Crc.{with_crc}
use modbus_basic.ModbusRtu.Slave.Validate.{RegisterSlave}
use modbus_basic.ModbusRtu.Slave.Receive.{with_input}
use modbus_basic.Exchange.{Request, Registers, IsRequest, serve, reply_of}
use modbus_basic.Exchange.Serving.{IsServing, registers_of}
use modbus_basic.Exchange.Session.{IsIdle}
use modbus_basic.Linux.Serial.{Device, IsDevice}
use modbus_basic.Linux.Tools.{Timeval}
use modbus_basic.Linux.Run.{rounds, run, check_packet, take_character}
use modbus_basic.Linux.Run.Steps.{Machine, IsAt, io_lem, take_none, input_of, output_of}
use modbus_basic.Linux.Run.Checks.{Settles, idle-Settles, arrived-Settles}
use modbus_basic.Linux.Run.Packets.{
  packets, registers_after, replies, tail_of, arrival, split, packet_lem,
}

module _ {B P : Type 0} (x : External) (laws : IsExternal x) (d : Device B P) (dl : IsDevice d)
    (fuel : ℕ) (wide : dl.room < fuel) where
  after_first :
      (now : Timeval) (times first later : List Timeval)
      (l m c l1 l2 : Machine {B = B} {P = P} x laws d dl)
      → times ≡ first ++ later
      → (run x (updating_store x) (register_store x) d fuel now l ≡ (do
        checked ← check_packet x (updating_store x) (register_store x) d m
        take_character x (updating_store x) (register_store x) d now checked))
      → check_packet x (updating_store x) (register_store x) d m ≡ ok c
      → take_character x (updating_store x) (register_store x) d now c ≡ ok l1
      → (rounds x (updating_store x) (register_store x) d fuel (first ++ later) l1
          ≡ rounds x (updating_store x) (register_store x) d fuel later l2)
      → rounds x (updating_store x) (register_store x) d fuel (now ∷ times) l
        ≡ rounds x (updating_store x) (register_store x) d fuel later l2
  unfolding rounds
  after_first now times first later l m c l1 l2 parts running checked took fed =
      rw (running, checked, took, parts, fed) refl

  -- From a machine whose slave settles to one whose slave has the next packet.
  next_lem :
      (a : ℕ) (q : Request) (rest : List ℕ) (regs : Registers) (reply outs : List ℕ) (now : Timeval)
      (times first later : List Timeval) (l : Machine {B = B} {P = P} x laws d dl)
      (s : RegisterSlave)
      → 256 ≤ dl.room
      → IsRequest q
      → times ≡ first ++ later
      → length first ≡ length (tail_of x a q)
      → Settles x laws d dl a s regs reply
      → IsAt x laws d dl l s (a ∷ tail_of x a q ++ rest) outs
      → (l2 : Machine {B = B} {P = P} x laws d dl) × (s2 : RegisterSlave) × (rounds x
            (updating_store x)
            (register_store x)
            d
            fuel
            (now ∷ times)
            l
          ≡ rounds x (updating_store x) (register_store x) d fuel later l2)
        × IsAt x laws d dl l2 s2 rest (outs ++ reply)
        × Settles x laws d dl a s2 (serve q regs).0 (with_crc x (reply_of a q (serve q regs).1))
  next_lem a q rest regs reply outs now times first later l s roomy valid parts front settles h =
      let (m, running, same, ready, flushed) =
        io_lem x laws d dl fuel now l s (a ∷ tail_of x a q ++ rest) outs wide h in
      let (c, checked, at_c, idle, serving, kept) =
        settles m (a ∷ tail_of x a q ++ rest) outs same ready flushed in
      let (l1, l2, took, fed, at_l2) =
        packet_lem x laws d dl fuel wide a q rest (outs ++ reply) now first later c front valid idle
          at_c in
      (
        l2,
        with_input c.slave (arrival x c.slave a q),
        after_first now times first later l m c l1 l2 parts running checked took fed,
        at_l2,
        subst
            (λ r.
              Settles x laws d dl a (with_input c.slave (arrival x c.slave a q)) (serve q r).0
                (with_crc x (reply_of a q (serve q r).1)))
            kept (arrived-Settles x laws d dl a c.slave q serving idle.window valid roomy),
      )

  -- What is left when all has come and is answered.
  abbrev pub Ends : ℕ → Result (Machine {B = B} {P = P} x laws d dl) → List ℕ → Registers → Type 0
  Ends a r outs regs =
      (l' : Machine {B = B} {P = P} x laws d dl) × (r ≡ ok l')
      × (input_of x laws d dl l' ≡ [])
      × (output_of x laws d dl l' ≡ outs)
      × (registers_of l'.slave ≡ regs)
      × IsIdle l'.slave
      × IsServing a l'.slave

  last_lem :
      (a : ℕ) (regs : Registers) (reply outs : List ℕ) (now : Timeval)
      (l : Machine {B = B} {P = P} x laws d dl) (s : RegisterSlave)
      → Settles x laws d dl a s regs reply
      → IsAt x laws d dl l s [] outs
      → Ends a
          (rounds x (updating_store x) (register_store x) d fuel (now ∷ []) l)
          (outs ++ reply)
          regs
  unfolding rounds
  last_lem a regs reply outs now l s settles h =
      let (m, running, same, ready, flushed) = io_lem x laws d dl fuel now l s [] outs wide h in
      let (c, checked, at_c, idle, serving, kept) = settles m [] outs same ready flushed in
      let (l', took, at_l', waits, serves, keeps) =
        take_none x laws d dl now c a (outs ++ reply) at_c idle serving in
      (l', rw (running, checked, took) refl, at_l'.input, at_l'.output, keeps ∙ kept, waits, serves)

  -- A machine whose slave settles, on the packets of several requests.
  rounds_lem :
      (a : ℕ) (qs : List Request) (regs : Registers) (reply outs : List ℕ) (times : List Timeval)
      (l : Machine {B = B} {P = P} x laws d dl) (s : RegisterSlave)
      → 256 ≤ dl.room
      → All IsRequest qs
      → length times ≡ suc (length (packets x a qs))
      → Settles x laws d dl a s regs reply
      → IsAt x laws d dl l s (packets x a qs) outs
      → Ends a
          (rounds x (updating_store x) (register_store x) d fuel times l)
          (outs ++ reply ++ replies x a qs regs)
          (registers_after qs regs)
  rounds_lem a [] regs reply outs [] l s roomy valid e settles h = absurd (omega arith)
  rounds_lem a [] regs reply outs (now ∷ one ∷ more) l s roomy valid e settles h =
      absurd (omega arith)
  rounds_lem a [] regs reply outs (now ∷ []) l s roomy valid e settles h =
      subst
        (λ b. Ends a (rounds x (updating_store x) (register_store x) d fuel (now ∷ []) l) b regs)
        (sym (append-nil (outs ++ reply))) (last_lem a regs reply outs now l s settles h)
  rounds_lem a (q ∷ qs) regs reply outs [] l s roomy valid e settles h = absurd (omega arith)
  rounds_lem a (q ∷ qs) regs reply outs (now ∷ times) l s roomy valid e settles h =
      let (first, later, parts, front, back) =
        split (length (tail_of x a q)) (suc (length (packets x a qs))) times
          (omega (arith, length-append (tail_of x a q) (packets x a qs))) in
      let (l2, s2, onward, at_l2, settled) =
        next_lem a q (packets x a qs) regs reply outs now times first later l s roomy valid.0 parts
          front settles h in
      subst
        (λ r. Ends a r (outs ++ reply ++ replies x a (q ∷ qs) regs) (registers_after (q ∷ qs) regs))
        (sym onward)
        (subst
          (λ b.
            Ends a (rounds x (updating_store x) (register_store x) d fuel later l2) b
              (registers_after (q ∷ qs) regs))
          (append_assoc (outs ++ reply) (with_crc x (reply_of a q (serve q regs).1))
            (replies x a qs (serve q regs).0))
          (rounds_lem a qs (serve q regs).0 (with_crc x (reply_of a q (serve q regs).1))
            (outs ++ reply) later l2 s2 roomy valid.1 back settled at_l2))

  -- A machine with an idle slave that serves at an address, whose input is the packets of several
  -- requests for that address, one behind the other and each within the protocol's limits, takes
  -- one round of `Run` for each byte and one more, and these rounds end without a fault, whatever
  -- the times at which they begin. Then no input is left, what it has sent or has yet to send is
  -- what was there before and the framed replies in the order of the requests, its registers are
  -- those after all the requests, and its slave is idle and serves. The buffers hold at least 256
  -- bytes, the input and the bytes to send fit into them, and the fuel of the loops is more than
  -- what they hold.
  pub rounds-replies :
      (a : ℕ) (qs : List Request) (outs : List ℕ) (times : List Timeval)
      (l : Machine {B = B} {P = P} x laws d dl)
      → 256 ≤ dl.room
      → IsIdle l.slave
      → IsServing a l.slave
      → IsAt x laws d dl l l.slave (packets x a qs) outs
      → All IsRequest qs
      → length times ≡ suc (length (packets x a qs))
      → Ends a
          (rounds x (updating_store x) (register_store x) d fuel times l)
          (outs ++ replies x a qs (registers_of l.slave))
          (registers_after qs (registers_of l.slave))
  rounds-replies a qs outs times l roomy idle serving h valid e =
      subst
        (λ b.
          Ends a (rounds x (updating_store x) (register_store x) d fuel times l)
            (b ++ replies x a qs (registers_of l.slave))
            (registers_after qs (registers_of l.slave)))
        (append-nil outs)
        (rounds_lem a qs (registers_of l.slave) [] outs times l l.slave roomy valid e
          (idle-Settles x laws d dl a l.slave idle serving) h)
