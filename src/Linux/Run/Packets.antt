-- ===== src/Linux/Run/Packets.antt =====
-- examples/LinuxSlave/source/LinuxSlave.h: rounds of `Run` on the bytes of one packet.
use modbus_basic.Common.{
  ℕ, zero, suc, ◌+◌, ◌<◌, ◌≡◌, refl, List, [], ◌∷◌, ◌++◌, ok, arith, length, ap, sym, pos,
}
use modbus_basic.External.{External, IsExternal}
use modbus_basic.DataStores.Updating.{register_store, updating_store}
use modbus_basic.Modbus.Frame.{Frame}
use modbus_basic.ModbusRtu.ReadContext.{ReadContext, PacketState, process_all}
use modbus_basic.ModbusRtu.ReadContext.Undone.{asserting, asserting-IsExternal, process_all-Takes}
use modbus_basic.ModbusRtu.Protocol.Crc.{with_crc}
use modbus_basic.ModbusRtu.Slave.Validate.{RegisterSlave}
use modbus_basic.ModbusRtu.Slave.Receive.{with_input}
use modbus_basic.Modbus.Function.{code}
use modbus_basic.ModbusRtu.Protocol.Received.{with_trailer}
use modbus_basic.Exchange.{
  function_of, head_of, rest_of, Request, Registers, IsRequest, serve, reply_of, packet_of,
}
use modbus_basic.Exchange.Arrival.{frame_of}
use modbus_basic.Exchange.Session.{IsIdle, arrives}
use modbus_basic.Linux.Serial.{Device, IsDevice}
use modbus_basic.Linux.Tools.{Timeval}
use modbus_basic.Linux.Run.{rounds, check_packet, take_character}
use modbus_basic.Linux.Run.Steps.{Machine, IsAt, IsReady, io_lem, take_some}

-- The packets of several requests, and what a slave promises for them: the registers in the end and the
-- bytes of the replies.
abbrev pub packets : External → ℕ → List Request → List ℕ
packets x a [] = []
packets x a (q ∷ qs) = packet_of x a q ++ packets x a qs

abbrev pub registers_after : List Request → Registers → Registers
registers_after [] r = r
registers_after (q ∷ qs) r = registers_after qs (serve q r).0

abbrev pub replies : External → ℕ → List Request → Registers → List ℕ
replies x a [] r = []
replies x a (q ∷ qs) r = with_crc x (reply_of a q (serve q r).1) ++ replies x a qs (serve q r).0

-- The packet of a request behind its first byte, and what the receiver has when it has arrived.
abbrev pub tail_of : External → ℕ → Request → List ℕ
tail_of x a q = code (function_of q) ∷ with_trailer x a (function_of q) (head_of q ++ rest_of q)

abbrev pub arrival : External → RegisterSlave → ℕ → Request → ReadContext × Frame
arrival x s a q = (
  record { state = PacketState.done; bytes_to_read = pos 0 },
  frame_of x s.base.framein.data_array a q,
)

pub split :
    (n m : ℕ) (xs : List Timeval)
    → length xs ≡ n + m
    → (ys zs : List Timeval) × (xs ≡ ys ++ zs) × (length ys ≡ n) × (length zs ≡ m)
split zero m xs h = ([], xs, refl, refl, omega arith)
split (suc n) m [] h = absurd (omega arith)
split (suc n) m (t ∷ xs) h =
    let (ys, zs, same, front, back) = split n m xs (omega arith) in
    (t ∷ ys, zs, ap (λ ts. t ∷ ts) same, ap suc front, back)

ended :
    (x : External) (ctx : ReadContext) (frame : Frame) (out : ReadContext × Frame)
    → process_all x ctx frame [] ≡ ok out
    → (ctx, frame) ≡ out
unfolding process_all
ended x ctx frame out h = cc

module _ {B P : Type 0} (x : External) (laws : IsExternal x) (d : Device B P) (dl : IsDevice d)
    (fuel : ℕ) (wide : dl.room < fuel) where
  -- Rounds that only take bytes.
  feed :
      (pts rest outs : List ℕ) (times more : List Timeval) (l : Machine {B = B} {P = P} x laws d dl)
      (s : RegisterSlave) (out : ReadContext × Frame)
      → length times ≡ length pts
      → IsAt x laws d dl l s (pts ++ rest) outs
      → process_all (asserting x) s.base.ctx s.base.framein pts ≡ ok out
      → (l' : Machine {B = B} {P = P} x laws d dl) × (rounds x
            (updating_store x)
            (register_store x)
            d
            fuel
            (times ++ more)
            l
          ≡ rounds x (updating_store x) (register_store x) d fuel more l')
        × IsAt x laws d dl l' (with_input s out) rest outs
  unfolding rounds check_packet
  feed [] rest outs [] more l s out e h all =
      (l, refl, rw (sym (ended (asserting x) s.base.ctx s.base.framein out all)) h)
  feed [] rest outs (now ∷ times) more l s out e h all = absurd (omega arith)
  feed (pt ∷ pts) rest outs [] more l s out e h all = absurd (omega arith)
  feed (pt ∷ pts) rest outs (now ∷ times) more l s out e h all =
      let (m, running, same, ready, flushed) =
        io_lem x laws d dl fuel now l s (pt ∷ pts ++ rest) outs wide h in
      let (undone, next, taken, onward) =
        process_all-Takes x s.base.ctx s.base.framein pt pts out all in
      let (l1, took, at_l1) =
        take_some x laws d dl now m pt (pts ++ rest) outs next ready (rw same taken) in
      let (l2, fed, at_l2) =
        feed pts rest outs times more l1 (with_input s next) out (omega arith) (rw same at at_l1)
          onward in
      (l2, rw (running, same, undone, took) fed, at_l2)

  -- From a byte to the end of the packet that it begins.
  pub packet_lem :
      (a : ℕ) (q : Request) (rest outs : List ℕ) (now : Timeval) (first later : List Timeval)
      (c : Machine {B = B} {P = P} x laws d dl)
      → length first ≡ length (tail_of x a q)
      → IsRequest q
      → IsIdle c.slave
      → IsReady x laws d dl c (a ∷ tail_of x a q ++ rest) outs
      → (l1 l2 : Machine {B = B} {P = P} x laws d dl) × (take_character x
            (updating_store x)
            (register_store x)
            d
            now
            c
          ≡ ok l1)
        × (rounds x (updating_store x) (register_store x) d fuel (first ++ later) l1
            ≡ rounds x (updating_store x) (register_store x) d fuel later l2)
        × IsAt x laws d dl l2 (with_input c.slave (arrival x c.slave a q)) rest outs
  packet_lem a q rest outs now first later c front valid idle ready =
      let (undone, next, taken, onward) =
        process_all-Takes x c.slave.base.ctx c.slave.base.framein a (tail_of x a q)
          (arrival x c.slave a q)
          (arrives (asserting x) (asserting-IsExternal x laws) a c.slave q idle valid) in
      let (l1, took, at_l1) =
        take_some x laws d dl now c a (tail_of x a q ++ rest) outs next ready taken in
      let (l2, fed, at_l2) =
        feed (tail_of x a q) rest outs first later l1 (with_input c.slave next)
          (arrival x c.slave a q) front at_l1 onward in
      (l1, l2, took, fed, at_l2)
