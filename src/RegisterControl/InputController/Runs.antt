-- ===== src/RegisterControl/InputController/Runs.antt =====
-- include/Modbus/RegisterControl.h: what the handler of the input registers does on a
-- RegisterDataStore.
use modbus_basic.Common.{
  ℕ, ◌+◌, ◌*◌, ◌%◌, ◌<◌, ◌≤◌, ◌≡◌, List, [], ◌∷◌, true, ok, arith, length, range, write_at,
  encode_words, length-write_at, pos, mul_size, sub_size, add_size, min,
}
use modbus_basic.External.{External, IsExternal}
use modbus_basic.View.{View}
use modbus_basic.View.Laws.{read_uint16_lem, set_all}
use modbus_basic.Modbus.Frame.{Frame}
use modbus_basic.Modbus.Response.{Response}
use modbus_basic.Modbus.Response.Laws.{IsFull, assign_lem}
use modbus_basic.DataCommand.{read_address_start}
use modbus_basic.DataStores.{DataStore}
use modbus_basic.DataStores.Registers.{RegisterDataStore}
use modbus_basic.DataStores.Registers.Bounds.{read_location_valid_iff}
use modbus_basic.DataStores.Registers.Access.{get_registers_lem}
use modbus_basic.DataStores.Updating.{register_store}
use modbus_basic.RegisterControl.ReadMultiple
use modbus_basic.RegisterControl.HoldingController.Runs.{word, IsPayload}
use modbus_basic.RegisterControl.InputController.{run_read_input_registers, read_registers}

module _ (x : External) (laws : IsExternal x) where
  -- A read of at most 125 registers that the store declares valid and answers with the given bytes, over the
  -- beginning of the response's data.
  pub run_read-answered :
      {S : Type 0} (d : DataStore S) (s : S) (frame : Frame) (response : Response) (bytes : List ℕ)
      → IsPayload 4 frame.data_array
      → IsFull response
      → word frame.data_array 2 ≤ 125
      → d.read_location_valid s (word frame.data_array 0) (word frame.data_array 2) ≡ true
      → d.get_registers s
          (word frame.data_array 0)
          (word frame.data_array 2)
          (record { storage = response.data_; start = 3; size = 2 * word frame.data_array 2 + 2 })
        ≡ ok (record {
          storage = write_at response.data_ 3 bytes;
          start = 3;
          size = 2 * word frame.data_array 2 + 2;
        })
      → run_read_input_registers x d s frame response
        ≡ ok (
          pos 0,
          s,
          record response {
            length_ = 3 + 2 * word frame.data_array 2;
            data_ =
                set_all
                  (write_at response.data_ 3 bytes)
                  ((0, frame.address) ∷ (1, 4) ∷ (2, 2 * word frame.data_array 2) ∷ []);
          },
        )
  unfolding run_read_input_registers read_registers ReadMultiple.read_register_count
      ReadMultiple.fill_input_response_header read_address_start
  run_read-answered d s frame response bytes p full few known answered = rw (
    read_uint16_lem x laws v 2 p.inside (omega arith) p.bytes,
    read_uint16_lem x laws v 0 p.inside (omega arith) p.bytes,
    known,
    room,
    answered,
    assign_lem x (record response { length_ = min 256 (2 * word v 2 % 256 + 3 + 2); data_ = read })
        ws (omega (arith, length-write_at response.data_ 3 bytes)) (omega arith),
    longer,
    shown,
  )
    where
      v : View
      v = frame.data_array

      read : List ℕ
      read = write_at response.data_ 3 bytes

      ws : List (ℕ × ℕ)
      ws = (0, frame.address) ∷ (1, 4) ∷ (2, mul_size (word v 2) 2 % 256) ∷ []

      longer : add_size 3 (mul_size (word v 2) 2) ≡ 3 + 2 * word v 2
      longer = omega arith

      room : sub_size (min 256 (2 * word v 2 % 256 + 3 + 2)) 3 ≡ 2 * word v 2 + 2
      room = omega arith

      shown : mul_size (word v 2) 2 % 256 ≡ 2 * word v 2
      shown = omega arith

  -- A read of at most 125 input registers, from one of the store on and all in it, leaves the
  -- store, returns 0, and leaves in the response the address, the function, twice the count and the
  -- registers, high byte first. The store has at most 65536 registers, the response its 256
  -- entries, and the payload lies in memory with at least 4 bytes.
  pub run_read_input_registers_lem :
      (s : RegisterDataStore) (frame : Frame) (response : Response)
      → length s.registers ≤ 65536
      → IsPayload 4 frame.data_array
      → IsFull response
      → word frame.data_array 0 < length s.registers
      → word frame.data_array 2 ≤ 125
      → word frame.data_array 0 + word frame.data_array 2 ≤ length s.registers
      → run_read_input_registers x (register_store x) s frame response
        ≡ ok (
          pos 0,
          s,
          record response {
            length_ = 3 + 2 * word frame.data_array 2;
            data_ =
                set_all
                  (write_at response.data_ 3 (
                    encode_words
                      (range s.registers (word frame.data_array 0) (word frame.data_array 2))))
                  ((0, frame.address) ∷ (1, 4) ∷ (2, 2 * word frame.data_array 2) ∷ []);
          },
        )
  run_read_input_registers_lem s frame response reach p full begins few h =
      run_read-answered (register_store x) s frame response
        (encode_words (range s.registers (word v 0) (word v 2))) p full few
        ((read_location_valid_iff s (word v 0) (word v 2) (omega arith) (omega arith)
            (omega arith)).1
          (begins, h))
        (get_registers_lem x laws s (word v 0) (word v 2)
          (record { storage = response.data_; start = 3; size = 2 * word v 2 + 2 }) h (omega arith)
          (omega arith) (omega arith))
    where
      v : View
      v = frame.data_array
