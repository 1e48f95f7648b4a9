-- ===== src/ModbusRtu/Slave/Commands.antt =====
-- include/Modbus/ModbusRtu/ModbusRtuSlave.h: the requests that ProcessMessage carries out.
use modbus_basic.Common.{
  ℕ, suc, false, ◌==◌, ◌+◌, ◌*◌, ◌≤◌, ◌<◌, ◌≡◌, refl, true, List, [], ◌∷◌, ok, arith, length,
  get_or, max, set, range, IsByte, ==_refl, ap, write_at, words_at, encode_words, length-range,
  encode_words-IsByte, write_at-IsByte, length-write_at, pos,
}
use modbus_basic.External.{External, IsExternal}
use modbus_basic.View.{View}
use modbus_basic.View.Laws.{set_all, set_all-IsByte, length-set_all}
use modbus_basic.Modbus.Function.{
  Function, ack, read_multiple_holding_registers, read_input_registers,
  write_single_holding_register, write_multiple_holding_registers, get_address_space_from_function,
}
use modbus_basic.Modbus.Frame.{Frame}
use modbus_basic.Modbus.Response.{Response, new_response}
use modbus_basic.DataStores.Updating.{UpdatingRegisterDataStore, register_store, updating_store}
use modbus_basic.DataStores.Updating.Flags.{flag_run}
use modbus_basic.RegisterControl.HoldingController
use modbus_basic.RegisterControl.HoldingController.Runs.{
  word, IsStore, IsPayload, run_write_single_lem, run_write_multiple_lem,
}
use modbus_basic.RegisterControl.HoldingController.Reads.{run_read_multiple_lem}
use modbus_basic.RegisterControl.InputController
use modbus_basic.RegisterControl.InputController.Runs.{run_read_input_registers_lem}
use modbus_basic.ModbusRtu.Protocol.{frame_crc_is_valid}
use modbus_basic.ModbusRtu.Protocol.Reply.{IsFramed, frame_response-IsFramed}
use modbus_basic.ModbusRtu.Slave.{process_message, run_command, run_in_space, answer}
use modbus_basic.ModbusRtu.Slave.Validate.{RegisterSlave, verdict, IsNamed}
use modbus_basic.ModbusRtu.Slave.Replies.{
  zeros, zeros-IsByte, length-zeros, read_reply, read_reply_below, in_store_lem, reframe,
  short_reply,
}
use modbus_basic.ModbusRtu.Slave.Errors.{request, with_request, with_response, IsSized, judged}

-- The slave with the holding registers and their flags replaced.
abbrev pub with_holding : RegisterSlave → UpdatingRegisterDataStore → RegisterSlave
with_holding s store = record s { holding = store }

module _ (x : External) (laws : IsExternal x) (s : RegisterSlave) (sized : IsSized s) (a n : ℕ)
    (f : Function) (v : View) (p : IsPayload 5 v) (named : IsNamed f) where
  -- An accepted request is run.
  accepted_lem :
      (t : RegisterSlave)
      → s.slave_address ≡ a
      → frame_crc_is_valid x (request a f n v) ≡ ok true
      → verdict f s.holding.base s.input v ≡ ack
      → run_command x
          (updating_store x)
          (register_store x)
          (with_request s (request a f n v))
          (request a f n v)
        ≡ ok (pos 0, t)
      → process_message x
          (updating_store x)
          (register_store x)
          true
          (with_request s (request a f n v))
        ≡ ok t
  unfolding process_message answer
  accepted_lem t mine good fine run =
      rw (judged x laws s sized a n f v p named, same, good, fine, run)
    where
      same : (s.slave_address == a) ≡ true
      same = rw mine (==_refl a)

module _ (x : External) (laws : IsExternal x) (s : RegisterSlave) (sized : IsSized s)
    (store : IsStore s.holding) (a n : ℕ) (v : View) (p : IsPayload 5 v) (byte : IsByte a)
    (mine : s.slave_address ≡ a) where
  payload : (k : ℕ) → k ≤ 5 → IsPayload k v
  payload k h = record { inside = p.inside; room = omega arith; bytes = p.bytes }

  -- A read of at most 125 holding registers, from one of the store on and all in it, for this slave
  -- and with a right CRC, changes neither registers nor flags, and a framed response is ready: the address, the function,
  -- twice the register count, and the registers, high byte first. The store has a flag for each
  -- register and at most 65536 registers, the address is a byte, and the payload lies in memory
  -- with at least 5 bytes.
  pub process_message_read_holding :
      frame_crc_is_valid x (request a read_multiple_holding_registers n v) ≡ ok true
      → word v 0 < length s.holding.base.registers
      → word v 2 ≤ 125
      → word v 0 + word v 2 ≤ length s.holding.base.registers
      → (r : Response) × (process_message x
            (updating_store x)
            (register_store x)
            true
            (with_request s (request a read_multiple_holding_registers n v))
          ≡ ok (with_response (with_request s (request a read_multiple_holding_registers n v)) r))
        × IsFramed x
            (a
              ∷ 3
              ∷ 2 * word v 2
              ∷ encode_words (range s.holding.base.registers (word v 0) (word v 2)))
            r
  unfolding run_command run_in_space get_address_space_from_function HoldingController.read_frame
  process_message_read_holding good begins few h =
      let frame : Frame = request a read_multiple_holding_registers n v in
      let regs : List ℕ = range s.holding.base.registers (word v 0) (word v 2) in
      let ws : List (ℕ × ℕ) = (0, a) ∷ (1, 3) ∷ (2, 2 * word v 2) ∷ [] in
      let written : List ℕ = write_at (set_all zeros ws) 3 (encode_words regs) in
      let count : length regs ≡ word v 2 =
        length-range s.holding.base.registers (word v 0) (word v 2) in
      let fine : verdict read_multiple_holding_registers s.holding.base s.input v ≡ ack =
        rw (in_store_lem s.holding.base (word v 0) (word v 2) begins h) in
      let (r, eq, framed) =
        frame_response-IsFramed x laws frame
          (record { length_ = 3 + 2 * word v 2; data_ = written; ready = false })
          (suc (2 * word v 2))
          (omega (
            arith,
            length-write_at (set_all zeros ws) 3 (encode_words regs),
            length-set_all zeros ws,
            length-zeros,
          ))
          (write_at-IsByte (set_all zeros ws) 3 (encode_words regs)
            (set_all-IsByte zeros ws zeros-IsByte (byte, (omega arith, (omega arith, tt))))
            (encode_words-IsByte regs))
          byte (omega arith) (omega arith) (omega arith) in
      (
        r,
        accepted_lem x laws s sized a n read_multiple_holding_registers v p tt
            (with_response (with_request s frame) r) mine good fine
            (rw (
              run_read_multiple_lem x laws s.holding store frame new_response
                  (payload 4 (omega arith)) refl begins few h,
              eq,
            )),
        reframe x r (ap (λ t. a ∷ 3 ∷ t) (read_reply ws regs (word v 2) count (omega arith)))
            framed,
      )

  -- A write of one holding register of the store, for this slave and with a right CRC, stores the
  -- setting and sets the register's flag, and a framed response is ready: the address, the
  -- function, the register's address and the setting. The store has a flag for each register and at
  -- most 65536 registers, the address is a byte, and the payload lies in memory with at least 5
  -- bytes.
  pub process_message_write_single :
      frame_crc_is_valid x (request a write_single_holding_register n v) ≡ ok true
      → word v 0 < length s.holding.base.registers
      → (r : Response) × (process_message x
            (updating_store x)
            (register_store x)
            true
            (with_request s (request a write_single_holding_register n v))
          ≡ ok (
              with_response
                (with_holding
                  (with_request s (request a write_single_holding_register n v))
                  (record {
                    base = record {
                      registers = set s.holding.base.registers (word v 0) (word v 2);
                    };
                    flags = set s.holding.flags (word v 0) true;
                  }))
                r))
        × IsFramed x (a ∷ 6 ∷ encode_words (word v 0 ∷ word v 2 ∷ [])) r
  unfolding run_command run_in_space get_address_space_from_function HoldingController.read_frame
  process_message_write_single good h =
      let frame : Frame = request a write_single_holding_register n v in
      let fine : verdict write_single_holding_register s.holding.base s.input v ≡ ack =
        rw (in_store_lem s.holding.base (word v 0) 1 (omega arith) (omega arith)) in
      let (r, eq, framed) =
        short_reply x laws frame 6 (word v 0) (word v 2) byte (omega arith) (omega arith) in
      (
        r,
        accepted_lem x laws s sized a n write_single_holding_register v p tt
            (with_response (with_holding (with_request s frame) _) r) mine good fine
            (rw (
              run_write_single_lem x laws s.holding store frame new_response
                  (payload 4 (omega arith)) refl h,
              eq,
            )),
        framed,
      )

  -- A write of holding registers, from one of the store on and all in it, for this slave, with a
  -- right CRC and a byte count of twice the register count, stores the words of the payload and sets their
  -- registers' flags, and a framed response is ready: the address, the function, the first
  -- register's address and the register count. The store has a flag for each register and at most
  -- 65536 registers, the address is a byte, and the payload lies in memory with the announced
  -- bytes, and at least 6.
  pub process_message_write_multiple :
      frame_crc_is_valid x (request a write_multiple_holding_registers n v) ≡ ok true
      → IsPayload (5 + max 1 (2 * word v 2)) v
      → get_or v.storage (v.start + 4) 0 ≡ 2 * word v 2
      → word v 0 < length s.holding.base.registers
      → word v 0 + word v 2 ≤ length s.holding.base.registers
      → (r : Response) × (process_message x
            (updating_store x)
            (register_store x)
            true
            (with_request s (request a write_multiple_holding_registers n v))
          ≡ ok (
              with_response
                (with_holding
                  (with_request s (request a write_multiple_holding_registers n v))
                  (record {
                    base = record {
                      registers =
                          write_at s.holding.base.registers
                            (word v 0)
                            (words_at v.storage (v.start + 5) (word v 2));
                    };
                    flags = flag_run s.holding.flags (word v 0) (word v 2);
                  }))
                r))
        × IsFramed x (a ∷ 16 ∷ encode_words (word v 0 ∷ word v 2 ∷ [])) r
  unfolding run_command run_in_space get_address_space_from_function HoldingController.read_frame
  process_message_write_multiple good long bytes begins h =
      let frame : Frame = request a write_multiple_holding_registers n v in
      let fine : verdict write_multiple_holding_registers s.holding.base s.input v ≡ ack = rw (
        in_store_lem s.holding.base (word v 0) (word v 2) begins h,
        bytes,
        ==_refl (2 * word v 2),
      ) in
      let (r, eq, framed) =
        short_reply x laws frame 16 (word v 0) (word v 2) byte (omega arith) (omega arith) in
      (
        r,
        accepted_lem x laws s sized a n write_multiple_holding_registers v p tt
            (with_response (with_holding (with_request s frame) _) r) mine good fine
            (rw (
              run_write_multiple_lem x laws s.holding store frame new_response long refl begins h,
              eq,
            )),
        framed,
      )

  -- A read of at most 125 input registers, from one of the store on and all in it, for this slave
  -- and with a right CRC, changes neither registers nor flags, and a framed response is ready: the address, the function,
  -- twice the register count, and the registers, high byte first. The input store has at most 65536
  -- registers, the holding store too and a flag for each, the address is a byte, and the payload
  -- lies in memory with at least 5 bytes.
  pub process_message_read_input :
      frame_crc_is_valid x (request a read_input_registers n v) ≡ ok true
      → length s.input.registers ≤ 65536
      → word v 0 < length s.input.registers
      → word v 2 ≤ 125
      → word v 0 + word v 2 ≤ length s.input.registers
      → (r : Response) × (process_message x
            (updating_store x)
            (register_store x)
            true
            (with_request s (request a read_input_registers n v))
          ≡ ok (with_response (with_request s (request a read_input_registers n v)) r))
        × IsFramed x
            (a ∷ 4 ∷ 2 * word v 2 ∷ encode_words (range s.input.registers (word v 0) (word v 2)))
            r
  unfolding run_command run_in_space get_address_space_from_function InputController.read_frame
  process_message_read_input good reach begins few h =
      let frame : Frame = request a read_input_registers n v in
      let regs : List ℕ = range s.input.registers (word v 0) (word v 2) in
      let ws : List (ℕ × ℕ) = (0, a) ∷ (1, 4) ∷ (2, 2 * word v 2) ∷ [] in
      let below : List ℕ = write_at zeros 3 (encode_words regs) in
      let count : length regs ≡ word v 2 = length-range s.input.registers (word v 0) (word v 2) in
      let fine : verdict read_input_registers s.holding.base s.input v ≡ ack =
        rw (in_store_lem s.input (word v 0) (word v 2) begins h) in
      let (r, eq, framed) =
        frame_response-IsFramed x laws frame
          (record { length_ = 3 + 2 * word v 2; data_ = set_all below ws; ready = false })
          (suc (2 * word v 2))
          (omega (
            arith,
            length-set_all below ws,
            length-write_at zeros 3 (encode_words regs),
            length-zeros,
          ))
          (set_all-IsByte below ws
            (write_at-IsByte zeros 3 (encode_words regs) zeros-IsByte (encode_words-IsByte regs))
            (byte, (omega arith, (omega arith, tt))))
          byte (omega arith) (omega arith) (omega arith) in
      (
        r,
        accepted_lem x laws s sized a n read_input_registers v p tt
            (with_response (with_request s frame) r) mine good fine
            (rw (
              run_read_input_registers_lem x laws s.input frame new_response reach
                  (payload 4 (omega arith)) refl begins few h,
              eq,
            )),
        reframe x r
            (ap (λ t. a ∷ 4 ∷ t)
              (read_reply_below a 4 (2 * word v 2) regs (word v 2) count (omega arith)))
            framed,
      )
