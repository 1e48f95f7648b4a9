-- ===== src/ModbusRtu/Slave/Handled/Packets.antt =====
-- include/Modbus/ModbusRtu/ModbusRtuSlave.h: ProcessMessage on packets of each function.
use native.Mathlib.Decide.{ℕ_discrete}
use modbus_basic.Common.{
  ℕ, suc, ◌+◌, ◌*◌, ◌≤◌, ◌≡◌, refl, Bool, true, [], ◌∷◌, ok, arith, length, get_or, range,
  Bool-cases, inl, inr, ap, ◌∙◌, length-set, length-write_at, words_at, encode_words, ◌==◌,
}
use modbus_basic.External.{External, IsExternal}
use modbus_basic.View.{View}
use modbus_basic.Modbus.Function.{
  Function, code, read_multiple_holding_registers, read_input_registers,
  write_single_holding_register, write_multiple_holding_registers,
}
use modbus_basic.Modbus.Response.{Response}
use modbus_basic.DataStores.Updating.{UpdatingRegisterDataStore}
use modbus_basic.RegisterControl.HoldingController.Runs.{word}
use modbus_basic.ModbusRtu.Protocol.{frame_crc_is_valid}
use modbus_basic.ModbusRtu.Protocol.Framing.{frame_crc_is_valid_lem}
use modbus_basic.Exchange.Serving.{length-flag_run}
use modbus_basic.ModbusRtu.Slave.Validate.{RegisterSlave, in_store, IsNamed}
use modbus_basic.ModbusRtu.Slave.Errors.{
  request, with_request, with_response, code-IsByte, process_message_foreign,
  process_message_unchecked,
}
use modbus_basic.ModbusRtu.Slave.Commands.{
  with_holding, process_message_read_holding, process_message_read_input,
  process_message_write_single, process_message_write_multiple,
}
use modbus_basic.ModbusRtu.Slave.Handled.{
  asked, IsSendable, IsHeld, IsKept, IsFramed-IsSendable, in_store-true, IsAddressed-IsSized,
  IsAddressed-IsStore, IsHeld-IsPayload, read-IsSendable, Handled, answered, unanswered, denied,
}

module _ (x : External) (laws : IsExternal x) (s : RegisterSlave) (a k : ℕ) (v : View)
    (h : IsHeld s a k v) where
  module _ (mine : s.slave_address ≡ a) where
    read_holding-Handled :
        frame_crc_is_valid x (request a read_multiple_holding_registers (k + 2) v) ≡ ok true
        → word v 2 ≤ 125
        → Handled x laws s a k v h read_multiple_holding_registers
    read_holding-Handled good few =
        elim (Bool-cases (in_store s.holding.base (word v 0) (word v 2))) [
          | inr out ↦
              denied x laws s a k v h read_multiple_holding_registers tt mine good
                (rw out (λ e. ground arith))
          | inl found ↦
              (let (begins, ends) = in_store-true s.holding.base (word v 0) (word v 2) found in
                let (r, eq, framed) =
                  process_message_read_holding x laws s (IsAddressed-IsSized h.stores)
                    (IsAddressed-IsStore h.stores) a (k + 2) v (IsHeld-IsPayload h) h.byte mine good
                    begins few ends in
                (
                  with_response
                      (with_request s (request a read_multiple_holding_registers (k + 2) v)) r,
                  eq,
                  answered x laws s a k v h read_multiple_holding_registers r (
                      read-IsSendable x a 3 s.holding.base.registers (word v 0) (word v 2) r few
                        framed),
                ))
        ]

    read_input-Handled :
        frame_crc_is_valid x (request a read_input_registers (k + 2) v) ≡ ok true
        → word v 2 ≤ 125
        → Handled x laws s a k v h read_input_registers
    read_input-Handled good few = elim (Bool-cases (in_store s.input (word v 0) (word v 2))) [
      | inr out ↦
          denied x laws s a k v h read_input_registers tt mine good (rw out (λ e. ground arith))
      | inl found ↦
          (let (begins, ends) = in_store-true s.input (word v 0) (word v 2) found in
            let (r, eq, framed) =
              process_message_read_input x laws s (IsAddressed-IsSized h.stores)
                (IsAddressed-IsStore h.stores) a (k + 2) v (IsHeld-IsPayload h) h.byte mine good
                (omega (arith, h.stores.input_count)) begins few ends in
            (
              with_response (with_request s (request a read_input_registers (k + 2) v)) r,
              eq,
              answered x laws s a k v h read_input_registers r
                  (read-IsSendable x a 4 s.input.registers (word v 0) (word v 2) r few framed),
            ))
    ]

    -- The slave with other contents of its holding store, of the same size, and a response to send.
    stored :
        (f : Function) (kept : UpdatingRegisterDataStore) (r : Response)
        → length kept.base.registers ≡ length s.holding.base.registers
        → length kept.flags ≡ length s.holding.flags
        → IsSendable r
        → IsKept
            (with_request s (request a f (k + 2) v))
            (with_response (with_holding (with_request s (request a f (k + 2) v)) kept) r)
    stored f kept r e g ready = record {
      stores = record {
        holding_count = omega (arith, h.stores.holding_count);
        input_count = h.stores.input_count;
        flag_count = omega (arith, h.stores.flag_count);
      };
      sendable = ready;
      receiver = refl;
      frame = refl;
      address = refl;
    }

    write_single-Handled :
        frame_crc_is_valid x (request a write_single_holding_register (k + 2) v) ≡ ok true
        → Handled x laws s a k v h write_single_holding_register
    write_single-Handled good = elim (Bool-cases (in_store s.holding.base (word v 0) 1)) [
      | inr out ↦
          denied x laws s a k v h write_single_holding_register tt mine good
            (rw out (λ e. ground arith))
      | inl found ↦
          (let (begins, ends) = in_store-true s.holding.base (word v 0) 1 found in
            let (r, eq, framed) =
              process_message_write_single x laws s (IsAddressed-IsSized h.stores)
                (IsAddressed-IsStore h.stores) a (k + 2) v (IsHeld-IsPayload h) h.byte mine good
                begins in
            (
              _,
              eq,
              stored write_single_holding_register _ r
                  (length-set {0} s.holding.base.registers (word v 0) (word v 2))
                  (length-set {0} s.holding.flags (word v 0) true)
                  (IsFramed-IsSendable x (a ∷ 6 ∷ encode_words (word v 0 ∷ word v 2 ∷ [])) r
                    (omega arith) framed),
            ))
    ]

    write_multiple-Handled :
        frame_crc_is_valid x (request a write_multiple_holding_registers (k + 2) v) ≡ ok true
        → 5 + get_or v.storage (v.start + 4) 0 ≤ v.size
        → Handled x laws s a k v h write_multiple_holding_registers
    write_multiple-Handled good long =
        elim (Bool-cases (in_store s.holding.base (word v 0) (word v 2))) [
          | inr out ↦
              denied x laws s a k v h write_multiple_holding_registers tt mine good
                (rw out (λ e. ground arith))
          | inl found ↦ elim (Bool-cases (2 * word v 2 == get_or v.storage (v.start + 4) 0)) [
            | inr odd ↦
                denied x laws s a k v h write_multiple_holding_registers tt mine good
                  (rw (found, odd) (λ e. ground arith))
            | inl twice ↦
                (let (begins, ends) = in_store-true s.holding.base (word v 0) (word v 2) found in
                  let count : get_or v.storage (v.start + 4) 0 ≡ 2 * word v 2 = ground arith in
                  let (r, eq, framed) =
                    process_message_write_multiple x laws s (IsAddressed-IsSized h.stores)
                      (IsAddressed-IsStore h.stores) a (k + 2) v (IsHeld-IsPayload h) h.byte mine
                      good
                      (record {
                        inside = h.payload.inside;
                        room = omega (arith, h.payload.room, count, long);
                        bytes = h.payload.bytes;
                      })
                      count begins ends in
                  (
                    _,
                    eq,
                    stored write_multiple_holding_registers _ r
                        (length-write_at s.holding.base.registers (word v 0)
                          (words_at v.storage (v.start + 5) (word v 2)))
                        (length-flag_run s.holding.flags (word v 0) (word v 2))
                        (IsFramed-IsSendable x (a ∷ 16 ∷ encode_words (word v 0 ∷ word v 2 ∷ [])) r
                          (omega arith) framed),
                  ))
          ]
        ]

    -- A packet for this slave with a right CRC.
    good-Handled :
        (f : Function)
        → IsNamed f
        → frame_crc_is_valid x (request a f (k + 2) v) ≡ ok true
        → asked f v ≤ 125
        → (f ≡ write_multiple_holding_registers → 5 + get_or v.storage (v.start + 4) 0 ≤ v.size)
        → Handled x laws s a k v h f
    good-Handled read_multiple_holding_registers named good few long = read_holding-Handled good few
    good-Handled read_input_registers named good few long = read_input-Handled good few
    good-Handled write_single_holding_register named good few long = write_single-Handled good
    good-Handled write_multiple_holding_registers named good few long =
        write_multiple-Handled good (long refl)
    good-Handled (Function.unnamed n) named good few long = absurd named
    good-Handled f named good few long =
        denied x laws s a k v h f named mine good (λ e. ground arith)

  -- A packet of a valid function that has come in, of at most 254 bytes behind its two header bytes,
  -- is processed without a fault, whatever it says, unless it asks for more than 125 registers.
  pub process_message-Handled :
      (f : Function)
      → IsNamed f
      → asked f v ≤ 125
      → (f ≡ write_multiple_holding_registers → 5 + get_or v.storage (v.start + 4) 0 ≤ v.size)
      → Handled x laws s a k v h f
  process_message-Handled f named few long = elim (ℕ_discrete s.slave_address a) [
    | no other ↦ (
      with_request s (request a f (k + 2) v),
      process_message_foreign x laws s (IsAddressed-IsSized h.stores) a (k + 2) f v
          (IsHeld-IsPayload h) named other,
      unanswered x laws s a k v h f,
    )
    | yes mine ↦ elim (Bool-cases (verified f)) [
      | inl good ↦ good-Handled mine f named (checked f named ∙ ap ok good) few long
      | inr bad ↦ (
        with_request s (request a f (k + 2) v),
        process_message_unchecked x laws s (IsAddressed-IsSized h.stores) a (k + 2) f v
            (IsHeld-IsPayload h) named true (checked f named ∙ ap ok bad),
        unanswered x laws s a k v h f,
      )
    ]
  ]
    where
      verified : Function → Bool
      verified f =
          get_or v.storage (v.start + k) 0 * 256 + get_or v.storage (v.start + suc k) 0
          == x.utilities_crc16 (a ∷ code f ∷ range v.storage v.start k)

      checked :
          (f : Function)
          → IsNamed f
          → frame_crc_is_valid x (request a f (k + 2) v) ≡ ok (verified f)
      checked f named =
          frame_crc_is_valid_lem x laws (request a f (k + 2) v) k refl h.fits h.inside
            h.payload.inside h.payload.bytes h.byte (code-IsByte f named)
