-- ===== src/RegisterControl/HoldingController/Overflow.antt =====
-- include/Modbus/RegisterControl.h: reads of more holding registers than the response has room for.
use modbus_basic.Common.{
  get_or-IsByte, ℕ, ◌+◌, ◌*◌, ◌%◌, ◌≤◌, ◌<◌, ◌≡◌, List, [], ◌∷◌, err, out_of_bounds, arith, length,
  mul_size, sub_size, add_size, min,
}
use modbus_basic.External.{External, IsExternal}
use modbus_basic.View.{View}
use modbus_basic.View.Laws.{read_uint16_lem, set_all, length-set_all}
use modbus_basic.Modbus.Frame.{Frame}
use modbus_basic.Modbus.Response.{Response}
use modbus_basic.Modbus.Response.Laws.{IsFull, assign_lem}
use modbus_basic.DataCommand.{read_address_start}
use modbus_basic.DataStores.Registers.Bounds.{read_location_valid_iff}
use modbus_basic.DataStores.Registers.Beyond.{get_registers-beyond}
use modbus_basic.DataStores.Updating.{UpdatingRegisterDataStore, updating_store}
use modbus_basic.RegisterControl.ReadMultiple
use modbus_basic.RegisterControl.HoldingController.{run_read_multiple, read_registers}
use modbus_basic.RegisterControl.HoldingController.Runs.{word, IsPayload, IsStore}

module _ (x : External) (laws : IsExternal x) where
  -- A read of more than 126 holding registers, all in the store, writes outside the response. The
  -- store has a flag for each register and at most 65536 registers, the response its 256 entries,
  -- and the payload lies in memory with at least 4 bytes.
  pub run_read_multiple-outside :
      (s : UpdatingRegisterDataStore) (i : IsStore s) (frame : Frame) (response : Response)
      → IsPayload 4 frame.data_array
      → IsFull response
      → 126 < word frame.data_array 2
      → word frame.data_array 0 + word frame.data_array 2 ≤ length s.base.registers
      → run_read_multiple x (updating_store x) s frame response ≡ err out_of_bounds
  unfolding run_read_multiple read_registers ReadMultiple.read_register_count
      ReadMultiple.fill_holding_response_header read_address_start
  run_read_multiple-outside s i frame response p full many h = rw (
    read_uint16_lem x laws v 0 p.inside (omega arith) p.bytes,
    read_uint16_lem x laws v 2 p.inside (omega arith) p.bytes,
    assign_lem x (record response { length_ = min 256 (2 * word v 2 % 256 + 3 + 2) }) ws full
        (omega arith),
    (read_location_valid_iff s.base (word v 0) (word v 2) (omega (arith, i.reach)) count
          (omega (arith, i.reach))).1
        (omega arith, h),
    longer,
    room,
    get_registers-beyond x laws s.base (word v 0) (word v 2)
        (record { storage = set_all response.data_ ws; start = 3; size = 2 * word v 2 }) h
        (omega (arith, i.reach)) (omega arith) (omega (arith, full, lengths))
        (omega (arith, full, lengths)),
  )
    where
      v : View
      v = frame.data_array

      ws : List (ℕ × ℕ)
      ws = (0, frame.address) ∷ (1, 3) ∷ (2, mul_size (word v 2) 2 % 256) ∷ []

      lengths : length (set_all response.data_ ws) ≡ length response.data_
      lengths = length-set_all response.data_ ws

      count : word v 2 < 65536
      count = omega (
        arith,
        get_or-IsByte v.storage (v.start + 2) p.bytes,
        get_or-IsByte v.storage (v.start + 2 + 1) p.bytes,
      )

      longer : add_size 3 (mul_size (word v 2) 2) ≡ 3 + 2 * word v 2
      longer = omega (arith, h, i.reach)

      room : sub_size (3 + 2 * word v 2) 3 ≡ 2 * word v 2
      room = omega (arith, h, i.reach)
