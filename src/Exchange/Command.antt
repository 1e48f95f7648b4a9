-- ===== src/Exchange/Command.antt =====
-- include/Modbus/RegisterControl.h: a master's requests, which `FillFrame` of the command puts into a frame.
use modbus_basic.Common.{
  ℕ, suc, ◌+◌, ◌*◌, ◌≤◌, ◌≡◌, refl, List, [], ◌∷◌, Result, ok, length, write_at, encode_words,
  arith, write_at-append, length-write_at, length-encode_words, le→leb, assert-true, u8, ap,
}
use native.Mathlib.Nat.{add-zero}
use modbus_basic.External.{External, IsExternal}
use modbus_basic.View.{View, IsInside}
use modbus_basic.View.Runs.{view_assign-run}
use modbus_basic.Modbus.Frame.{Frame}
use modbus_basic.RegisterControl.WriteSingle
use modbus_basic.RegisterControl.ReadMultiple.{
  fill_holding_frame, fill_input_frame, fill_frame_base,
}
use modbus_basic.RegisterControl.WriteMultiple
use modbus_basic.RegisterControl.WriteMultiple.Values.{fill_values_lem}
use modbus_basic.Exchange.{
  Request, read_holding, read_input, write_single, write_multiple, IsRequest, function_of, head_of,
}
use modbus_basic.Exchange.Arrival.{body_of}

-- `FillFrame` of the command that a request names.
abbrev pub fill_command : External → Request → Frame → Result Frame
fill_command x (read_holding address count) frame = fill_holding_frame x address count frame
fill_command x (read_input address count) frame = fill_input_frame x address count frame
fill_command x (write_single address value) frame = WriteSingle.fill_frame x address value frame
fill_command x (write_multiple address values) frame =
    WriteMultiple.fill_frame x address (length values) values frame

-- The frame with the request in it.
abbrev pub commanded : Request → Frame → Frame
commanded q frame = record frame {
  function = function_of q;
  data_length = length (body_of q);
  data_array = record frame.data_array {
    storage = write_at frame.data_array.storage frame.data_array.start (body_of q);
  };
}

module _ (x : External) (laws : IsExternal x) where
  pub fill_command_lem :
      (q : Request) (frame : Frame)
      → IsRequest q
      → IsInside frame.data_array
      → 251 ≤ frame.data_array.size
      → fill_command x q frame ≡ ok (commanded q frame)
  unfolding fill_holding_frame fill_input_frame fill_frame_base WriteSingle.fill_frame
      WriteMultiple.fill_frame
  fill_command_lem (read_holding address count) frame valid w h =
      rw
        (
          fill_holding_frame,
          fill_frame_base,
          le→leb 4 frame.data_array.size (omega arith),
          assert-true,
          view_assign-run x laws frame.data_array 0
              (x.get_byte address 1
                ∷ x.get_byte address 0
                ∷ x.get_byte count 1
                ∷ x.get_byte count 0
                ∷ [])
              w (omega arith),
          add-zero,
          laws.high_byte address,
          laws.low_byte address,
          laws.high_byte count,
          laws.low_byte count,
        )
        refl
  fill_command_lem (read_input address count) frame valid w h =
      rw
        (
          fill_input_frame,
          fill_frame_base,
          le→leb 4 frame.data_array.size (omega arith),
          assert-true,
          view_assign-run x laws frame.data_array 0
              (x.get_byte address 1
                ∷ x.get_byte address 0
                ∷ x.get_byte count 1
                ∷ x.get_byte count 0
                ∷ [])
              w (omega arith),
          add-zero,
          laws.high_byte address,
          laws.low_byte address,
          laws.high_byte count,
          laws.low_byte count,
        )
        refl
  fill_command_lem (write_single address value) frame valid w h =
      rw
        (
          WriteSingle.fill_frame,
          le→leb 4 frame.data_array.size (omega arith),
          assert-true,
          view_assign-run x laws frame.data_array 0
              (x.get_byte address 1
                ∷ x.get_byte address 0
                ∷ x.get_byte value 1
                ∷ x.get_byte value 0
                ∷ [])
              w (omega arith),
          add-zero,
          laws.high_byte address,
          laws.low_byte address,
          laws.high_byte value,
          laws.low_byte value,
        )
        refl
  fill_command_lem (write_multiple address values) frame valid w h =
      rw
        (
          WriteMultiple.fill_frame,
          bytes,
          le→leb (5 + 2 * length values) frame.data_array.size (omega (arith, valid)),
          assert-true,
          view_assign-run x laws v 0 front w (omega arith),
          add-zero,
          fill_values_lem x laws (record v { storage = write_at v.storage v.start front }) 5 values
              (omega (arith, length-write_at v.storage v.start front)) (omega (arith, valid)),
          laws.high_byte address,
          laws.low_byte address,
          laws.high_byte (length values),
          laws.low_byte (length values),
          ← write_at-append v.storage v.start (head_of (write_multiple address values))
              (encode_words values),
          length-encode_words values,
        )
        (ap (λ n. ok (record (commanded (write_multiple address values) frame) { data_length = n }))
          five)
    where
      v : View
      v = frame.data_array

      front : List ℕ
      front =
          x.get_byte address 1
          ∷ x.get_byte address 0
          ∷ x.get_byte (length values) 1
          ∷ x.get_byte (length values) 0
          ∷ 2 * length values
          ∷ []

      bytes : u8 (length values * 2) ≡ 2 * length values
      bytes = omega (arith, valid)

      five : 5 + 2 * length values ≡ suc (suc (suc (suc (suc (2 * length values)))))
      five = omega arith
