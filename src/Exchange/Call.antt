-- ===== src/Exchange/Call.antt =====
-- include/Modbus: a master and a slave together, from the request's registers to the reply's.
use modbus_basic.Common.{
  get_or-IsWord, ℕ, zero, suc, ◌+◌, ◌≤◌, ◌≡◌, List, [], ◌∷◌, true, ok, ◌>>=◌, length, range, All,
  IsByte, IsWord, arith, leb, Bool-cases, inl, inr, length-encode_words, length-range,
  encode_words-IsByte, range-write_at, length-write_at, write_at-IsByte, ap, ◌∙◌, subst, sym,
}
use modbus_basic.External.{External, IsExternal}
use modbus_basic.View.{View, view_of}
use modbus_basic.Modbus.Function.{code}
use modbus_basic.Modbus.Function.Laws.{get_error_function_lem}
use modbus_basic.Modbus.Frame.{Frame}
use modbus_basic.DataStores.Updating.{register_store, updating_store}
use modbus_basic.ModbusRtu.Protocol.{frame_packet, view_crc_is_valid}
use modbus_basic.ModbusRtu.Protocol.Crc.{with_crc}
use modbus_basic.ModbusRtu.Protocol.Received.{append-IsByte}
use modbus_basic.ModbusRtu.Protocol.Reply.{sent}
use modbus_basic.ModbusRtu.Protocol.RoundTrip.{read_frame-frame_packet}
use modbus_basic.ModbusRtu.Slave.{receive, process_message}
use modbus_basic.ModbusRtu.Slave.Validate.{RegisterSlave}
use modbus_basic.Exchange.{
  Request, Registers, Reply, read_holding, read_input, write_single, write_multiple, refused,
  values_read, written, IsRequest, serve, reply_of, function_of, packet_of,
}
use modbus_basic.Exchange.Arrival.{IsWindow, body_of, length-body_of, body_of-IsByte}
use modbus_basic.Exchange.Serving.{IsServing, registers_of, function_of-IsByte}
use modbus_basic.Exchange.Session.{IsIdle, exchange_lem}
use modbus_basic.Exchange.Command.{fill_command, commanded, fill_command_lem}
use modbus_basic.Exchange.Reading.{Reads, IsReply, reply-Reads, with_crc-valid}

range-IsWord : (xs : List ℕ) (i n : ℕ) → All IsWord xs → All IsWord (range xs i n)
range-IsWord xs i zero h = tt
range-IsWord xs i (suc n) h = (get_or-IsWord xs i h, range-IsWord xs (suc i) n h)

-- Registers of 16 bits.
pub record IsWords (r : Registers) : Type 0 where
  pub holding : All IsWord r.holding
  pub input : All IsWord r.input

serve-IsReply : (q : Request) (r : Registers) → IsRequest q → IsWords r → IsReply (serve q r).1
serve-IsReply (read_holding address count) r h w =
    elim (Bool-cases (leb (address + count) (length r.holding))) [
      | inl fits ↦ rw fits (
        range-IsWord r.holding address count w.holding,
        omega (arith, h, length-range r.holding address count),
      )
      | inr over ↦ rw over (omega arith)
    ]
serve-IsReply (read_input address count) r h w =
    elim (Bool-cases (leb (address + count) (length r.input))) [
      | inl fits ↦ rw fits (
        range-IsWord r.input address count w.input,
        omega (arith, h, length-range r.input address count),
      )
      | inr over ↦ rw over (omega arith)
    ]
serve-IsReply (write_single address value) r h w =
    elim (Bool-cases (leb (address + 1) (length r.holding))) [
      | inl fits ↦ rw fits h
      | inr over ↦ rw over (omega arith)
    ]
serve-IsReply (write_multiple address values) r h w =
    elim (Bool-cases (leb (address + length values) (length r.holding))) [
      | inl fits ↦ rw fits (h.0, omega (arith, h))
      | inr over ↦ rw over (omega arith)
    ]

reply_of-IsByte :
    (a : ℕ) (q : Request) (reply : Reply)
    → IsByte a
    → IsReply reply
    → All IsByte (reply_of a q reply)
reply_of-IsByte a q (refused e) h k =
    (h, ((get_error_function_lem (function_of q) (function_of-IsByte q)).1, (k, tt)))
reply_of-IsByte a q (values_read values) h k =
    (h, (function_of-IsByte q, (omega (arith, k), encode_words-IsByte values)))
reply_of-IsByte a q (written address value) h k =
    (h, (function_of-IsByte q, encode_words-IsByte (address ∷ value ∷ [])))

length-reply :
    (a : ℕ) (q : Request) (reply : Reply) → IsReply reply → length (reply_of a q reply) ≤ 253
length-reply a q (refused e) h = omega arith
length-reply a q (values_read values) h = omega (arith, h, length-encode_words values)
length-reply a q (written address value) h = omega arith

module _ (x : External) (laws : IsExternal x) where
  -- The master's side: a request becomes its packet.
  send_lem :
      (q : Request) (frame : Frame) (bytes : List ℕ)
      → IsRequest q
      → IsByte frame.address
      → IsWindow frame.data_array
      → All IsByte bytes
      → length bytes ≡ length (body_of q) + 4
      → (buffer : View) × (frame_packet x (commanded q frame) (view_of bytes) ≡ ok buffer)
        × (range buffer.storage 0 (length bytes) ≡ packet_of x frame.address q)
  send_lem q frame bytes valid address window memory e =
      let v : View = frame.data_array in
      let body : List ℕ = body_of q in
      let inside : v.start + length body ≤ length v.storage =
        omega (arith, window.inside, window.whole, length-body_of q valid) in
      let (buffer, framed, wire, checked, back) =
        read_frame-frame_packet x laws (commanded q frame) frame bytes
          (omega (arith, window.inside, length-write_at v.storage v.start body))
          (omega (arith, window.whole, length-body_of q valid))
          (write_at-IsByte v.storage v.start body window.bytes (body_of-IsByte q valid)) address
          (function_of-IsByte q) memory e (omega (arith, length-body_of q valid)) window.inside
          (omega (arith, window.whole, length-body_of q valid)) in
      (
        buffer,
        subst
            (λ n.
              frame_packet x (commanded q frame) (record { storage = bytes; start = 0; size = n })
              ≡ ok buffer)
            (sym e) framed,
        ap (range buffer.storage 0) e
            ∙ wire
            ∙ ap (λ bs. with_crc x (frame.address ∷ code (function_of q) ∷ bs))
                (range-write_at v.storage v.start body inside),
      )

  -- The slave's reply, on the master's side.
  reply_lem :
      (a : ℕ) (q : Request) (reply : Reply)
      → IsByte a
      → IsReply reply
      → (view_crc_is_valid x (view_of (with_crc x (reply_of a q reply))) ≡ ok true)
        × Reads x q reply (view_of (with_crc x (reply_of a q reply)))
  reply_lem a q reply address valid =
      let bytes : All IsByte (reply_of a q reply) = reply_of-IsByte a q reply address valid in
      (
        with_crc-valid x laws (reply_of a q reply) bytes
            (omega (arith, length-reply a q reply valid)),
        reply-Reads x laws a q reply valid
            (append-IsByte (reply_of a q reply) _ _ bytes (omega arith) (omega arith)),
      )

  -- The library with itself: a request within the protocol's limits, which `FillFrame` of its
  -- command puts into a master's frame and `Frame` into a buffer, received byte by byte and
  -- processed by an idle slave that serves at the frame's address. None of it faults. The slave
  -- then has the registers that the specification gives, and a valid response, whose bytes pass the
  -- CRC check and in which the readers of responses find the specified reply: the registers read,
  -- the address and the value or count of a write, or the error function and the exception. The
  -- slave's registers are 16-bit words, the frame's window has 256 bytes in memory, and the
  -- master's buffer has exactly the packet's size and holds bytes.
  pub call_lem :
      (s : RegisterSlave) (q : Request) (frame : Frame) (bytes : List ℕ)
      → IsServing frame.address s
      → IsIdle s
      → IsWords (registers_of s)
      → IsRequest q
      → IsWindow frame.data_array
      → All IsByte bytes
      → length bytes ≡ length (body_of q) + 4
      → (filled : Frame) × (buffer : View) × (t : RegisterSlave) × (fill_command x q frame
          ≡ ok filled)
        × (frame_packet x filled (view_of bytes) ≡ ok buffer)
        × ((do
          u ←
              receive x
                (updating_store x)
                (register_store x)
                (range buffer.storage 0 (length bytes))
                s
          process_message x (updating_store x) (register_store x) true u)
            ≡ ok t)
        × (registers_of t ≡ (serve q (registers_of s)).0)
        × (t.base.response_valid ≡ true)
        × (view_crc_is_valid x (view_of (sent t.base.response)) ≡ ok true)
        × Reads x q (serve q (registers_of s)).1 (view_of (sent t.base.response))
  call_lem s q frame bytes serving idle words valid window memory e =
      let (buffer, framed, wire) = send_lem q frame bytes valid serving.byte window memory e in
      let (t, answered, done) = exchange_lem x laws frame.address s q serving idle valid in
      let (checked, reads) =
        reply_lem frame.address q (serve q (registers_of s)).1 serving.byte
          (serve-IsReply q (registers_of s) valid words) in
      (
        commanded q frame,
        buffer,
        t,
        fill_command_lem x laws q frame valid window.inside (omega (arith, window.whole)),
        framed,
        rw wire answered,
        done.kept,
        done.ready,
        rw (done.framed.0) checked,
        rw (done.framed.0) reads,
      )
