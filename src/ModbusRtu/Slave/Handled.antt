-- ===== src/ModbusRtu/Slave/Handled.antt =====
-- include/Modbus/ModbusRtu/ModbusRtuSlave.h: ProcessMessage on whatever packet has come in.
pub mod Packets
use native.Mathlib.Decide.{ℕ_discrete}
use modbus_basic.Common.{
  range, encode_words, length-encode_words, ◌*◌, ℕ, ◌+◌, ◌*◌, ◌≤◌, ◌<◌, ◌≡◌, ◌≢◌, refl, Bool, true,
  false, List, [], ◌∷◌, ok, arith, length, get_or, max, set, range, IsByte, Bool-cases, inl, inr,
  ap, ◌∙◌, sym, length-range, length-append, ◌/◌, ◌%◌, length-set, length-write_at, words_at,
  write_at, encode_words, length-encode_words, ◌==◌, ltb, leb, ◌&&◌, if◌then◌else◌,
}
use modbus_basic.External.{External, IsExternal}
use modbus_basic.View.{View}
use modbus_basic.Modbus.Function.{
  Function, Exception, exception_code, illegal_data_address, illegal_data_value, illegal_function,
  ack, code, get_error_function, read_multiple_holding_registers, read_input_registers,
  write_single_holding_register, write_multiple_holding_registers,
}
use modbus_basic.Modbus.Frame.{Frame}
use modbus_basic.Modbus.Response.{Response}
use modbus_basic.Modbus.Response.Laws.{IsFull}
use modbus_basic.DataStores.Registers.{RegisterDataStore}
use modbus_basic.DataStores.Updating.{UpdatingRegisterDataStore, register_store, updating_store}
use modbus_basic.DataStores.Updating.Flags.{flag_run}
use modbus_basic.RegisterControl.HoldingController.Runs.{word, IsStore, IsPayload}
use modbus_basic.ModbusRtu.Protocol.{frame_crc_is_valid}
use modbus_basic.ModbusRtu.Protocol.Crc.{with_crc}
use modbus_basic.ModbusRtu.Protocol.Framing.{frame_crc_is_valid_lem}
use modbus_basic.ModbusRtu.Protocol.Reply.{IsFramed, sent}
use modbus_basic.ModbusRtu.Slave.{process_message}
use modbus_basic.Exchange.Serving.{length-flag_run}
use modbus_basic.ModbusRtu.Slave.Validate.{RegisterSlave, verdict, in_store, IsNamed}
use modbus_basic.ModbusRtu.Slave.Errors.{
  request, with_request, with_response, IsSized, code-IsByte, process_message_foreign,
  process_message_unchecked, process_message_refused,
}
use modbus_basic.ModbusRtu.Slave.Commands.{
  with_holding, process_message_read_holding, process_message_read_input,
  process_message_write_single, process_message_write_multiple,
}

-- A response whose bytes can be sent.
abbrev pub IsSendable : Response → Type 0
IsSendable r = IsFull r × (r.length_ ≤ 256)

-- Stores within the reach of 16-bit addresses, with a flag for each holding register.
pub record IsAddressed (s : RegisterSlave) : Type 0 where
  pub holding_count : length s.holding.base.registers ≤ 65536
  pub input_count : length s.input.registers ≤ 65536
  pub flag_count : length s.holding.flags ≡ length s.holding.base.registers

-- The slave `t` has the address, the receiver and the frame of `s`, stores of the same sizes, and a response
-- that can be sent.
pub record IsKept (s t : RegisterSlave) : Type 0 where
  pub stores : IsAddressed t
  pub sendable : IsSendable t.base.response
  pub receiver : t.base.ctx ≡ s.base.ctx
  pub frame : t.base.framein ≡ s.base.framein
  pub address : t.slave_address ≡ s.slave_address

-- The registers that a packet asks to read.
abbrev pub asked : Function → View → ℕ
asked read_multiple_holding_registers v = word v 2
asked read_input_registers v = word v 2
asked f v = 0

-- A slave with a packet of `k` bytes and a CRC behind the header.
pub record IsHeld (s : RegisterSlave) (a k : ℕ) (v : View) : Type 0 where
  pub stores : IsAddressed s
  pub sendable : IsSendable s.base.response
  pub payload : IsPayload 6 v
  pub byte : IsByte a
  pub fits : k + 4 ≤ 256
  pub inside : k + 2 ≤ v.size

pub IsFramed-IsSendable :
    (x : External) (bytes : List ℕ) (r : Response)
    → length bytes ≤ 254
    → IsFramed x bytes r
    → IsSendable r
IsFramed-IsSendable x bytes r h (e, crc, full) = (
  full,
  omega (
    arith,
    sym (length-range r.data_ 0 r.length_) ∙ ap length e,
    length-append {0} bytes
        (x.utilities_crc16 bytes / 256 % 256 ∷ x.utilities_crc16 bytes % 256 ∷ []),
    h,
  ),
)

-- A request that is judged true stands in the store.
pub in_store-true :
    (s : RegisterDataStore) (address count : ℕ)
    → in_store s address count ≡ true
    → (address < length s.registers) × (address + count ≤ length s.registers)
in_store-true s address count h = ground arith

pub IsAddressed-IsSized : {s : RegisterSlave} → IsAddressed s → IsSized s
IsAddressed-IsSized h = record {
  holding_size = omega (arith, h.holding_count);
  input_size = omega (arith, h.input_count);
}

pub IsAddressed-IsStore : {s : RegisterSlave} → IsAddressed s → IsStore s.holding
IsAddressed-IsStore h = record { reach = omega (arith, h.holding_count); flagged = h.flag_count }

pub IsHeld-IsPayload : {s : RegisterSlave} {a k : ℕ} {v : View} → IsHeld s a k v → IsPayload 5 v
IsHeld-IsPayload h = record {
  inside = h.payload.inside;
  room = omega (arith, h.payload.room);
  bytes = h.payload.bytes;
}

pub read-IsSendable :
    (x : External) (a g : ℕ) (registers : List ℕ) (address count : ℕ) (r : Response)
    → count ≤ 125
    → IsFramed x (a ∷ g ∷ 2 * count ∷ encode_words (range registers address count)) r
    → IsSendable r
read-IsSendable x a g registers address count r few framed =
    IsFramed-IsSendable x (a ∷ g ∷ 2 * count ∷ encode_words (range registers address count)) r
      (omega (
        arith,
        length-encode_words (range registers address count),
        length-range registers address count,
      ))
      framed

module _ (x : External) (laws : IsExternal x) (s : RegisterSlave) (a k : ℕ) (v : View)
    (h : IsHeld s a k v) where
  abbrev pub Handled : Function → Type 0
  Handled f =
      (t : RegisterSlave) × (process_message x (updating_store x) (register_store x) true
          (with_request s (request a f (k + 2) v))
        ≡ ok t)
      × IsKept (with_request s (request a f (k + 2) v)) t

  -- The slave as it was, with a response to send.
  pub answered :
      (f : Function) (r : Response)
      → IsSendable r
      → IsKept
          (with_request s (request a f (k + 2) v))
          (with_response (with_request s (request a f (k + 2) v)) r)
  answered f r ready = record {
    stores = record {
      holding_count = h.stores.holding_count;
      input_count = h.stores.input_count;
      flag_count = h.stores.flag_count;
    };
    sendable = ready;
    receiver = refl;
    frame = refl;
    address = refl;
  }

  pub unanswered :
      (f : Function)
      → IsKept (with_request s (request a f (k + 2) v)) (with_request s (request a f (k + 2) v))
  unanswered f = record {
    stores = record {
      holding_count = h.stores.holding_count;
      input_count = h.stores.input_count;
      flag_count = h.stores.flag_count;
    };
    sendable = h.sendable;
    receiver = refl;
    frame = refl;
    address = refl;
  }

  module _ (f : Function) (named : IsNamed f) (mine : s.slave_address ≡ a)
      (good : frame_crc_is_valid x (request a f (k + 2) v) ≡ ok true) where
    -- A request that is refused.
    pub denied : verdict f s.holding.base s.input v ≢ ack → Handled f
    denied ne =
        let (r, eq, framed) =
          process_message_refused x laws s (IsAddressed-IsSized h.stores) a (k + 2) f v
            (IsHeld-IsPayload h) named h.byte mine good ne in
        (
          with_response (with_request s (request a f (k + 2) v)) r,
          eq,
          answered f r (
              IsFramed-IsSendable x
                (a
                  ∷ code (get_error_function f)
                  ∷ exception_code (verdict f s.holding.base s.input v)
                  ∷ [])
                r (omega arith) framed),
        )
