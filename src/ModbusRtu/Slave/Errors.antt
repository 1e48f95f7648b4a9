-- ===== src/ModbusRtu/Slave/Errors.antt =====
-- include/Modbus/ModbusRtu/ModbusRtuSlave.h: the packets that ProcessMessage leaves alone, and those
-- that it refuses.
use modbus_basic.Common.{
  ℕ, ◌<◌, ◌≡◌, ◌≢◌, refl, Bool, true, false, List, [], ◌∷◌, ok, arith, length, set, size_mod,
  IsByte, ◌>>=◌, ==_refl, replicate-IsByte, replicate, set-IsByte,
}
use modbus_basic.External.{External, IsExternal}
use modbus_basic.View.{View}
use modbus_basic.Modbus.Function.{
  Function, Exception, exception_code, ack, code, get_error_function, read_coils, no_exception,
}
use modbus_basic.Modbus.Function.Laws.{get_error_function_lem}
use modbus_basic.Modbus.Frame.{Frame, empty_frame}
use modbus_basic.Modbus.Response.{Response, new_response}
use modbus_basic.Modbus.Response.Laws.{put_lem}
use modbus_basic.DataStores.Updating.{register_store, updating_store}
use modbus_basic.RegisterControl.HoldingController.Runs.{IsPayload}
use modbus_basic.ModbusRtu.Protocol.{frame_crc_is_valid}
use modbus_basic.ModbusRtu.Protocol.Reply.{IsFramed, frame_response-IsFramed}
use modbus_basic.ModbusRtu.Slave.{
  SlaveProtocolBase, process_message, validate_message, send_error_response, answer,
}
use modbus_basic.ModbusRtu.Slave.Validate.{
  RegisterSlave, verdict, IsNamed, validate_message-verdict,
}

-- A request, as the receiver leaves it.
abbrev pub request : ℕ → Function → ℕ → View → Frame
request a f n v = record { address = a; function = f; data_length = n; data_array = v }

-- The slave with a request received.
abbrev pub with_request : RegisterSlave → Frame → RegisterSlave
with_request s frame = record s { base = record s.base { framein = frame } }

-- The slave with a response ready to be sent.
abbrev pub with_response : RegisterSlave → Response → RegisterSlave
with_response s r = record s { base = record s.base { response = r; response_valid = true } }

-- Stores that memory can hold.
pub record IsSized (s : RegisterSlave) : Type 0 where
  pub holding_size : length s.holding.base.registers < size_mod
  pub input_size : length s.input.registers < size_mod

pub code-IsByte : (f : Function) → IsNamed f → IsByte (code f)
code-IsByte (Function.unnamed n) h = absurd h
code-IsByte read_coils h = omega arith
code-IsByte _ h = omega arith

pub exception_code-IsByte : (e : Exception) → IsByte (exception_code e)
exception_code-IsByte no_exception = omega arith
exception_code-IsByte _ = omega arith

answer_refused :
    (x : External) (e : Exception)
    → e ≢ ack
    → (s : RegisterSlave) (frame : Frame)
    → answer x (updating_store x) (register_store x) e s frame
      ≡ (do b ← send_error_response x frame e s.base; ok (record s { base = b }))
unfolding answer
answer_refused x ack ne s frame = absurd (ne refl)
answer_refused x _ ne s frame = refl

module _ (x : External) (laws : IsExternal x) where
  -- An error response is framed with the frame's address, the error function and the exception.
  pub send_error_response_lem :
      (frame : Frame) (e : Exception) (b : SlaveProtocolBase)
      → IsByte frame.address
      → IsByte (code frame.function)
      → (r : Response) × (send_error_response x frame e b
          ≡ ok (record b { response = r; response_valid = true }))
        × IsFramed x
            (frame.address ∷ code (get_error_function frame.function) ∷ exception_code e ∷ [])
            r
  unfolding send_error_response
  send_error_response_lem frame e b a f =
      let zeros : List ℕ = replicate 256 0 in
      let (r, eq, framed) =
        frame_response-IsFramed x laws
          (record empty_frame {
            address = frame.address;
            function = get_error_function frame.function;
          })
          (record { length_ = 3; data_ = set zeros 2 (exception_code e); ready = false }) 1 refl
          (set-IsByte zeros 2 (exception_code e) (replicate-IsByte 256 0 (omega arith))
            (exception_code-IsByte e))
          a (get_error_function_lem frame.function f).1 refl (omega arith) in
      (r, rw (put_lem x new_response 2 (exception_code e) refl (omega arith), eq), framed)

  module _ (s : RegisterSlave) (sized : IsSized s) (a n : ℕ) (f : Function) (v : View)
      (p : IsPayload 5 v) (named : IsNamed f) where
    pub judged :
        validate_message x
          (updating_store x)
          (register_store x)
          (with_request s (request a f n v))
          (request a f n v)
        ≡ ok (verdict f s.holding.base s.input v)
    judged =
        validate_message-verdict x laws (with_request s (request a f n v)) a n v p
          sized.holding_size sized.input_size f named

    -- A request for another address changes nothing, if addresses are filtered. The stores are
    -- smaller than the address range, the function is an enumerator, and the payload lies in memory
    -- with at least 5 bytes.
    pub process_message_foreign :
        s.slave_address ≢ a
        → process_message x
            (updating_store x)
            (register_store x)
            true
            (with_request s (request a f n v))
          ≡ ok (with_request s (request a f n v))
    unfolding process_message
    process_message_foreign ne = rw judged (ground arith)

    -- A request that the CRC check does not accept changes nothing.
    pub process_message_unchecked :
        (filter_address : Bool)
        → frame_crc_is_valid x (request a f n v) ≡ ok false
        → process_message x
            (updating_store x)
            (register_store x)
            filter_address
            (with_request s (request a f n v))
          ≡ ok (with_request s (request a f n v))
    unfolding process_message
    process_message_unchecked filter_address bad = rw (judged, bad) (ground arith)

    -- A request for this slave, with a right CRC, that is not accepted changes neither registers
    -- nor flags, and a framed response is ready: the address, the function's error code and the
    -- exception that the request deserves. The stores are smaller than the address range, the
    -- function is an enumerator, the address a byte, and the payload lies in memory with at least 5
    -- bytes.
    pub process_message_refused :
        IsByte a
        → s.slave_address ≡ a
        → frame_crc_is_valid x (request a f n v) ≡ ok true
        → verdict f s.holding.base s.input v ≢ ack
        → (r : Response) × (process_message x
              (updating_store x)
              (register_store x)
              true
              (with_request s (request a f n v))
            ≡ ok (with_response (with_request s (request a f n v)) r))
          × IsFramed x
              (a
                ∷ code (get_error_function f)
                ∷ exception_code (verdict f s.holding.base s.input v)
                ∷ [])
              r
    unfolding process_message
    process_message_refused byte mine good ne =
        let (r, eq, framed) =
          send_error_response_lem (request a f n v) (verdict f s.holding.base s.input v)
            (with_request s (request a f n v)).base byte (code-IsByte f named) in
        (
          r,
          rw (
            judged,
            mine,
            good,
            ==_refl a,
            answer_refused x (verdict f s.holding.base s.input v) ne,
            eq,
          ),
          framed,
        )
