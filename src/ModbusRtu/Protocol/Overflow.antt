-- ===== src/ModbusRtu/Protocol/Overflow.antt =====
-- include/Modbus/ModbusRtu/ModbusRtuProtocol.h: FrameCrcIsValid on frames that its array has no room
-- for.
use modbus_basic.Common.{
  ℕ, zero, suc, ◌+◌, ◌<◌, ◌≤◌, ◌≡◌, refl, List, err, out_of_bounds, arith, length, set, get_or,
  length-set, min, replicate,
}
use native.Mathlib.Decide.{dec_le}
use modbus_basic.External.{External, IsExternal}
use modbus_basic.View.{View, IsInside}
use modbus_basic.View.Laws.{view_get_lem, store_lem, store_outside}
use modbus_basic.Modbus.Function.{code}
use modbus_basic.Modbus.Frame.{Frame}
use modbus_basic.ModbusRtu.Protocol.{frame_crc_is_valid, copy_to_array}

module _ (x : External) (laws : IsExternal x) where
  copy_to_array-outside :
      (source : View) (array : List ℕ) (i n : ℕ)
      → IsInside source
      → i + n ≤ source.size
      → i + 2 ≤ length array
      → length array < i + 2 + n
      → copy_to_array x source array i n ≡ err out_of_bounds
  unfolding copy_to_array
  copy_to_array-outside source array i zero w h p q = absurd (omega arith)
  copy_to_array-outside source array i (suc n) w h p q = elim (dec_le (i + 3) (length array)) [
    | yes room ↦ rw (
      view_get_lem x laws source i w (omega arith),
      store_lem {0} array (i + 2) (get_or source.storage (source.start + i) 0) (omega arith),
      copy_to_array-outside source (set array (i + 2) (get_or source.storage (source.start + i) 0))
          (suc i) n w (omega arith)
          (omega (arith, length-set {0} array (i + 2) (get_or source.storage (source.start + i) 0)))
          (omega
            (arith, length-set {0} array (i + 2) (get_or source.storage (source.start + i) 0))),
    )
    | no full ↦ rw (
      view_get_lem x laws source i w (omega arith),
      store_outside {0} array (i + 2) (get_or source.storage (source.start + i) 0) (omega arith),
    )
  ]

  -- The check of a frame with more than 254 bytes of data, all in a window inside memory, writes
  -- outside the array that it copies them to.
  pub frame_crc_is_valid-outside :
      (frame : Frame)
      → 254 < frame.data_length
      → frame.data_length ≤ frame.data_array.size
      → IsInside frame.data_array
      → frame_crc_is_valid x frame ≡ err out_of_bounds
  unfolding frame_crc_is_valid
  frame_crc_is_valid-outside frame long size inside = rw (
    store_lem {0} zeros 0 frame.address (omega arith),
    store_lem {0} (set zeros 0 frame.address) 1 (code frame.function)
        (omega (arith, length-set {0} zeros 0 frame.address)),
    copy_to_array-outside frame.data_array (set (set zeros 0 frame.address) 1 (code frame.function))
        0 (min frame.data_length 256) inside (omega arith) (omega (arith, lengths))
        (omega (arith, lengths)),
  )
    where
      zeros : List ℕ
      zeros = replicate 256 0

      lengths : length (set (set zeros 0 frame.address) 1 (code frame.function)) ≡ 256
      lengths = refl
