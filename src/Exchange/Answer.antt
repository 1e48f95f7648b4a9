-- ===== src/Exchange/Answer.antt =====
-- include/Modbus/ModbusRtu/ModbusRtuSlave.h: ProcessMessage on a request that has arrived, against what
-- the slave promises.
use modbus_basic.Common.{
  max, ℕ, ◌/◌, ◌%◌, ◌+◌, ◌*◌, ◌≡◌, refl, true, false, List, [], ◌∷◌, ok, arith, length, get_or, set,
  range, write_at, words_at, words_at-behind_five, leb, Bool-cases, inl, inr, ◌∙◌, ap, sym,
  encode_words, length-range, length-set, length-write_at, subst, append-nil, get_or-append_left,
  length-encode_words,
}
use modbus_basic.External.{External, IsExternal}
use modbus_basic.View.{View}
use modbus_basic.Modbus.Function.{illegal_data_address, code, exception_code, get_error_function}
use modbus_basic.Modbus.Response.{Response}
use modbus_basic.DataStores.Registers.{RegisterDataStore}
use modbus_basic.DataStores.Updating.{UpdatingRegisterDataStore, register_store, updating_store}
use modbus_basic.DataStores.Updating.Flags.{flag_run}
use modbus_basic.RegisterControl.HoldingController.Runs.{word, IsPayload, IsStore}
use modbus_basic.ModbusRtu.Protocol.{frame_crc_is_valid}
use modbus_basic.ModbusRtu.Protocol.Received.{received-valid, with_trailer}
use modbus_basic.ModbusRtu.Protocol.Reply.{IsFramed}
use modbus_basic.ModbusRtu.Slave.{process_message}
use modbus_basic.ModbusRtu.Slave.Validate.{RegisterSlave, verdict, in_store}
use modbus_basic.ModbusRtu.Slave.Errors.{with_request, with_response, process_message_refused}
use modbus_basic.ModbusRtu.Slave.Commands.{
  with_holding, process_message_read_holding, process_message_read_input,
  process_message_write_single, process_message_write_multiple,
}
use modbus_basic.Exchange.{
  Request, Reply, values_read, written, IsRequest, function_of, serve, reply_of, read_holding,
  read_input, write_single, write_multiple,
}
use modbus_basic.Exchange.Arrival.{
  IsWindow, body_of, frame_of, length-body_of, body_of-IsByte, arrived, arrived-IsPayload,
  two_words, words_at-arrived, arrived-byte,
}
use modbus_basic.Exchange.Serving.{
  registers_of, IsServing, IsAnswered, IsServing-IsSized, length-flag_run, function_of-IsNamed,
  function_of-IsByte, rewritten-IsStore,
}

outside_store :
    (store : RegisterDataStore) (address count : ℕ)
    → leb (address + count) (length store.registers) ≡ false
    → in_store store address count ≡ false
outside_store store address count over = ground arith

module _ (x : External) (laws : IsExternal x) (w : View) (window : IsWindow w) (a : ℕ)
    (s : RegisterSlave) (h : IsServing a s) where
  abbrev holder : Request → RegisterSlave
  holder q = with_request s (frame_of x w a q)

  -- What it takes for a request to be answered.
  abbrev pub Answers : Request → Type 0
  Answers q =
      (t : RegisterSlave) × (process_message x (updating_store x) (register_store x) true (holder q)
        ≡ ok t)
      × IsAnswered x a q (registers_of s) t

  good : (q : Request) → IsRequest q → frame_crc_is_valid x (frame_of x w a q) ≡ ok true
  good q valid =
      received-valid x laws w a (function_of q) (body_of q) window.inside
        (omega (arith, length-body_of q valid, window.whole))
        (omega (arith, length-body_of q valid)) window.bytes (body_of-IsByte q valid) h.byte
        (function_of-IsByte q)

  payload : (q : Request) → IsRequest q → IsPayload 5 (arrived x w a q)
  payload q valid = arrived-IsPayload x laws w window a h.byte q valid 5 (omega arith)

  -- A run that leaves the stores and the response of a served request has answered it.
  finish :
      (q : Request)
      → IsRequest q
      → (store : UpdatingRegisterDataStore) (r : Response) (bytes : List ℕ) (reply : Reply)
      → process_message x (updating_store x) (register_store x) true (holder q)
        ≡ ok (with_response (with_holding (holder q) store) r)
      → IsFramed x bytes r
      → IsStore store
      → serve q (registers_of s)
        ≡ (record { holding = store.base.registers; input = s.input.registers }, reply)
      → bytes ≡ reply_of a q reply
      → Answers q
  finish q valid store r bytes reply run framed kept served same = (
    with_response (with_holding (holder q) store) r,
    run,
    record {
      kept = sym (ap (λ t. t.0) served);
      ready = refl;
      framed = rw served (subst (λ b. IsFramed x b r) same framed);
      serving = record { store = kept; reach = h.reach; byte = h.byte; mine = h.mine };
      window = record {
        whole = window.whole;
        inside = (arrived-IsPayload x laws w window a h.byte q valid 5 (omega arith)).inside;
        bytes = (arrived-IsPayload x laws w window a h.byte q valid 5 (omega arith)).bytes;
      };
    },
  )

  refuse :
      (q : Request)
      → IsRequest q
      → verdict (function_of q) s.holding.base s.input (arrived x w a q) ≡ illegal_data_address
      → serve q (registers_of s) ≡ (registers_of s, Reply.refused illegal_data_address)
      → Answers q
  refuse q valid bad denied =
      let (r, eq, framed) =
        process_message_refused x laws s (IsServing-IsSized h) a
          (length (with_trailer x a (function_of q) (body_of q))) (function_of q) (arrived x w a q)
          (payload q valid) (function_of-IsNamed q) h.byte h.mine (good q valid)
          (rw bad (λ e. ground arith)) in
      finish q valid s.holding r
        (a
          ∷ code (get_error_function (function_of q))
          ∷ exception_code (verdict (function_of q) s.holding.base s.input (arrived x w a q))
          ∷ [])
        (Reply.refused illegal_data_address) eq framed h.store denied (rw bad)

  answer-read_holding :
      (address count : ℕ)
      → IsRequest (read_holding address count)
      → Answers (read_holding address count)
  answer-read_holding address count valid =
      let q : Request = read_holding address count in
      let (first, second) =
        two_words x laws w window a h.byte q valid address count valid.0 (omega arith) (omega arith)
          (λ i p. refl) in
      elim (Bool-cases (leb (address + count) (length s.holding.base.registers))) [
        | inl fits ↦
            (let (r, eq, framed) =
                process_message_read_holding x laws s (IsServing-IsSized h) h.store a _
                  (arrived x w a q) (payload q valid) h.byte h.mine (good q valid)
                  (rw first (ground arith)) (rw second valid.2)
                  (rw (first, second) (ground arith)) in
              finish q valid s.holding r
                (a
                  ∷ 3
                  ∷ 2 * word (arrived x w a q) 2
                  ∷ encode_words (
                      range s.holding.base.registers (word (arrived x w a q) 0)
                        (word (arrived x w a q) 2)))
                (values_read (range s.holding.base.registers address count)) eq framed h.store
                (rw fits) (rw (first, second, length-range s.holding.base.registers address count)))
        | inr over ↦
            refuse q valid (rw (first, second, outside_store s.holding.base address count over))
              (rw over)
      ]

  answer-read_input :
      (address count : ℕ)
      → IsRequest (read_input address count)
      → Answers (read_input address count)
  answer-read_input address count valid =
      let q : Request = read_input address count in
      let (first, second) =
        two_words x laws w window a h.byte q valid address count valid.0 (omega arith) (omega arith)
          (λ i p. refl) in
      elim (Bool-cases (leb (address + count) (length s.input.registers))) [
        | inl fits ↦
            (let (r, eq, framed) =
                process_message_read_input x laws s (IsServing-IsSized h) h.store a _
                  (arrived x w a q) (payload q valid) h.byte h.mine (good q valid) h.reach
                  (rw first (ground arith)) (rw second valid.2)
                  (rw (first, second) (ground arith)) in
              finish q valid s.holding r
                (a
                  ∷ 4
                  ∷ 2 * word (arrived x w a q) 2
                  ∷ encode_words (
                      range s.input.registers (word (arrived x w a q) 0)
                        (word (arrived x w a q) 2)))
                (values_read (range s.input.registers address count)) eq framed h.store (rw fits)
                (rw (first, second, length-range s.input.registers address count)))
        | inr over ↦
            refuse q valid (rw (first, second, outside_store s.input address count over)) (rw over)
      ]

  answer-write_single :
      (address value : ℕ)
      → IsRequest (write_single address value)
      → Answers (write_single address value)
  answer-write_single address value valid =
      let q : Request = write_single address value in
      let (first, second) =
        two_words x laws w window a h.byte q valid address value valid.0 valid.1 (omega arith)
          (λ i p. refl) in
      elim (Bool-cases (leb (address + 1) (length s.holding.base.registers))) [
        | inl fits ↦
            (let (r, eq, framed) =
                process_message_write_single x laws s (IsServing-IsSized h) h.store a _
                  (arrived x w a q) (payload q valid) h.byte h.mine (good q valid)
                  (rw first (ground arith)) in
              finish q valid
                (record {
                  base = record { registers = set s.holding.base.registers address value };
                  flags = set s.holding.flags address true;
                })
                r (a ∷ 6 ∷ encode_words (word (arrived x w a q) 0 ∷ word (arrived x w a q) 2 ∷ []))
                (written address value) (rw (first, second) at eq) framed
                (rewritten-IsStore s.holding _ _ (length-set s.holding.base.registers address value)
                  (length-set s.holding.flags address true) h.store)
                (rw fits) (rw (first, second)))
        | inr over ↦
            refuse q valid (rw (first, outside_store s.holding.base address 1 over)) (rw over)
      ]

  answer-write_multiple :
      (address : ℕ) (values : List ℕ)
      → IsRequest (write_multiple address values)
      → Answers (write_multiple address values)
  answer-write_multiple address values valid =
      let q : Request = write_multiple address values in
      let v : View = arrived x w a q in
      let long : length (body_of q) ≡ 5 + 2 * length values =
        omega (arith, length-encode_words values) in
      let (first, second) =
        two_words x laws w window a h.byte q valid address (length values) valid.0
          (omega (arith, valid.2)) (omega arith)
          (λ i p.
            get_or-append_left (encode_words (address ∷ length values ∷ []))
              (2 * length values ∷ encode_words values) i p) in
      let bytes : get_or v.storage (w.start + 4) 0 ≡ 2 * length values =
        arrived-byte x laws w window a h.byte q valid 4 (omega arith) in
      let words : words_at v.storage (w.start + 5) (length values) ≡ values =
        words_at-arrived x laws w window a h.byte q valid (length values) (omega arith)
        ∙ (rw append-nil at (
            words_at-behind_five (address / 256 % 256) (address % 256) (length values / 256 % 256)
              (length values % 256) (2 * length values) values [] valid.3)) in
      elim (Bool-cases (leb (address + length values) (length s.holding.base.registers))) [
        | inl fits ↦
            (let (r, eq, framed) =
                process_message_write_multiple x laws s (IsServing-IsSized h) h.store a _ v
                  (payload q valid) h.byte h.mine (good q valid)
                  (rw second (
                    arrived-IsPayload x laws w window a h.byte q valid
                      (5 + max 1 (2 * length values)) (omega arith)))
                  (rw second bytes) (rw first (ground arith)) (rw (first, second) (ground arith)) in
              finish q valid
                (record {
                  base = record { registers = write_at s.holding.base.registers address values };
                  flags = flag_run s.holding.flags address (length values);
                })
                r (a ∷ 16 ∷ encode_words (word v 0 ∷ word v 2 ∷ []))
                (written address (length values)) (rw (first, second, words) at eq) framed
                (rewritten-IsStore s.holding _ _
                  (length-write_at s.holding.base.registers address values)
                  (length-flag_run s.holding.flags address (length values)) h.store)
                (rw fits) (rw (first, second)))
        | inr over ↦
            refuse q valid
              (rw (first, second, outside_store s.holding.base address (length values) over))
              (rw over)
      ]

  -- A request within the protocol's limits that has arrived is processed without a fault, and leaves
  -- the registers and the framed reply that the slave promises.
  pub answer : (q : Request) → IsRequest q → Answers q
  answer (read_holding address count) valid = answer-read_holding address count valid
  answer (read_input address count) valid = answer-read_input address count valid
  answer (write_single address value) valid = answer-write_single address value valid
  answer (write_multiple address values) valid = answer-write_multiple address values valid
