-- ===== src/RegisterControl/HoldingController/Reads.antt =====
-- include/Modbus/RegisterControl.h: what reads of the holding registers leave in the response, over any data
-- store and over an UpdatingRegisterDataStore.
use modbus_basic.Common.{
  ℕ, ◌+◌, ◌*◌, ◌%◌, ◌<◌, ◌≤◌, ◌≡◌, List, [], ◌∷◌, true, ok, arith, length, range, write_at,
  encode_words, pos, mul_size, sub_size, add_size, min,
}
use modbus_basic.External.{External, IsExternal}
use modbus_basic.View.{View}
use modbus_basic.View.Laws.{read_uint16_lem, set_all, length-set_all}
use modbus_basic.Modbus.Frame.{Frame}
use modbus_basic.Modbus.Response.{Response}
use modbus_basic.Modbus.Response.Laws.{IsFull, assign_lem}
use modbus_basic.DataCommand.{read_address_start}
use modbus_basic.DataStores.{CallbackStore}
use modbus_basic.DataStores.Registers.Bounds.{read_location_valid_iff}
use modbus_basic.DataStores.Registers.Access.{get_registers_lem}
use modbus_basic.DataStores.Updating.{UpdatingRegisterDataStore, updating_store}
use modbus_basic.RegisterControl.ReadMultiple
use modbus_basic.RegisterControl.HoldingController.{run_read_multiple, read_registers}
use modbus_basic.RegisterControl.HoldingController.Runs.{word, IsPayload, IsStore}

-- The response with the header of a reply to a read.
abbrev pub read_header : Frame → Response → List ℕ
read_header frame response =
    set_all response.data_ ((0, frame.address) ∷ (1, 3) ∷ (2, 2 * word frame.data_array 2) ∷ [])

module _ (x : External) (laws : IsExternal x) where
  -- A read of at most 125 registers that the store declares valid and answers with the given bytes, behind the
  -- header of the response.
  pub run_read_multiple-answered :
      {S : Type 0} (d : CallbackStore S) (s : S) (frame : Frame) (response : Response)
      (bytes : List ℕ)
      → IsPayload 4 frame.data_array
      → IsFull response
      → word frame.data_array 2 ≤ 125
      → d.read_location_valid s (word frame.data_array 0) (word frame.data_array 2) ≡ true
      → d.get_registers s (word frame.data_array 0) (word frame.data_array 2) (record {
        storage = read_header frame response;
        start = 3;
        size = 2 * word frame.data_array 2;
      })
        ≡ ok (record {
          storage = write_at (read_header frame response) 3 bytes;
          start = 3;
          size = 2 * word frame.data_array 2;
        })
      → run_read_multiple x d s frame response
        ≡ ok (
          pos 0,
          s,
          record response {
            length_ = 3 + 2 * word frame.data_array 2;
            data_ = write_at (read_header frame response) 3 bytes;
          },
        )
  unfolding run_read_multiple read_registers ReadMultiple.read_register_count
      ReadMultiple.fill_holding_response_header read_address_start
  run_read_multiple-answered d s frame response bytes p full few known answered = rw (
    read_uint16_lem x laws v 0 p.inside (omega arith) p.bytes,
    read_uint16_lem x laws v 2 p.inside (omega arith) p.bytes,
    assign_lem x (record response { length_ = min 256 (2 * word v 2 % 256 + 3 + 2) }) ws full
        (omega arith),
    known,
    longer,
    room,
    shown,
    answered,
  )
    where
      v : View
      v = frame.data_array

      ws : List (ℕ × ℕ)
      ws = (0, frame.address) ∷ (1, 3) ∷ (2, mul_size (word v 2) 2 % 256) ∷ []

      longer : add_size 3 (mul_size (word v 2) 2) ≡ 3 + 2 * word v 2
      longer = omega arith

      room : sub_size (3 + 2 * word v 2) 3 ≡ 2 * word v 2
      room = omega arith

      shown : mul_size (word v 2) 2 % 256 ≡ 2 * word v 2
      shown = omega arith

  -- A read of at most 125 registers, from one of the store on and all in it, leaves the store,
  -- returns 0, and leaves in the response the address, the function, twice the count and the
  -- registers, high byte first.
  pub run_read_multiple_lem :
      (s : UpdatingRegisterDataStore) (i : IsStore s) (frame : Frame) (response : Response)
      → IsPayload 4 frame.data_array
      → IsFull response
      → word frame.data_array 0 < length s.base.registers
      → word frame.data_array 2 ≤ 125
      → word frame.data_array 0 + word frame.data_array 2 ≤ length s.base.registers
      → run_read_multiple x (updating_store x) s frame response
        ≡ ok (
          pos 0,
          s,
          record response {
            length_ = 3 + 2 * word frame.data_array 2;
            data_ = write_at (read_header frame response) 3 (
                encode_words
                  (range s.base.registers (word frame.data_array 0) (word frame.data_array 2)));
          },
        )
  run_read_multiple_lem s i frame response p full begins few h =
      run_read_multiple-answered (updating_store x) s frame response
        (encode_words (range s.base.registers (word v 0) (word v 2))) p full few
        ((read_location_valid_iff s.base (word v 0) (word v 2) (omega arith)
            (omega (arith, i.reach)) (omega arith)).1
          (begins, h))
        (get_registers_lem x laws s.base (word v 0) (word v 2)
          (record { storage = read_header frame response; start = 3; size = 2 * word v 2 }) h
          (omega (arith, i.reach)) (omega arith)
          (omega (
            arith,
            full,
            length-set_all response.data_ ((0, frame.address) ∷ (1, 3) ∷ (2, 2 * word v 2) ∷ []),
          )))
    where
      v : View
      v = frame.data_array
