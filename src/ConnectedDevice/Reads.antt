-- ===== src/ConnectedDevice/Reads.antt =====
-- examples/ConnectedDevice/LinuxSlave/source/LinuxSlave.h: what a master reads of the device's input map.
use modbus_basic.Common.{
  ℕ, ◌+◌, ◌*◌, ◌/◌, ◌<◌, ◌≡◌, refl, true, List, [], ◌∷◌, ok, length, get_or, write_at, arith, pos,
  ap, ◌∙◌, subst,
}
use modbus_basic.External.{External, IsExternal}
use modbus_basic.View.{View}
use modbus_basic.View.Laws.{set_all, read_uint16_lem}
use modbus_basic.Modbus.Function.{◌==f◌, ack, read_input_registers}
use modbus_basic.Modbus.Frame.{Frame}
use modbus_basic.Modbus.Response.{Response}
use modbus_basic.Modbus.Response.Laws.{IsFull}
use modbus_basic.DataCommand.{read_address_start}
use modbus_basic.RegisterControl.ReadMultiple
use modbus_basic.RegisterControl.InputController
use modbus_basic.RegisterControl.InputController.{validate_read_registers, run_read_input_registers}
use modbus_basic.RegisterControl.InputController.Runs.{run_read-answered}
use modbus_basic.RegisterControl.HoldingController.Runs.{word, IsPayload}
use modbus_basic.MappedStore.{MappedRegisterDataStore, get_registers}
use modbus_basic.Maps.{Conversion, IsConversion}
use modbus_basic.Maps.Input.{InputRegisters}
use modbus_basic.Maps.Input.Contents.{contents, IsSized, size_at}
use modbus_basic.Maps.Input.Fields.{fields, fields-IsFields}
use modbus_basic.Maps.Places.{get_registers-place, place-valid}
use modbus_basic.Maps.Input.Places.{
  input_map, input_offsets, input_ends, input_places, fields-IsPlaced,
}
use modbus_basic.ConnectedDevice.{input_store}

module _ (x : External) (laws : IsExternal x) (conversion : Conversion)
    (cl : IsConversion conversion) where
  answered_lem :
      (i : ℕ) (s : MappedRegisterDataStore InputRegisters) (memory : List ℕ)
      → i < 17
      → IsSized s.memory_controller
      → length memory ≡ 256
      → get_registers x
          (input_map conversion)
          s
          (get_or input_offsets i 0)
          (size_at i / 2)
          (record { storage = memory; start = 3; size = 2 * (size_at i / 2) + 2 })
        ≡ ok (record {
          storage = write_at memory 3 (get_or (contents s.memory_controller) i []);
          start = 3;
          size = 2 * (size_at i / 2) + 2;
        })
  answered_lem i s memory h sized full =
      let (index, begins, ends, double, some, few) = input_places i h in
      get_registers-place (fields conversion cl) input_offsets input_ends x
        (fields-IsPlaced conversion cl) s i h _
      ∙ (fields-IsFields conversion cl).get_lem s.memory_controller i
          (record { storage = memory; start = 3; size = 2 * (size_at i / 2) + 2 }) sized h
          (omega (arith, few, full)) (omega (arith, double))

  handled :
      (s : MappedRegisterDataStore InputRegisters) (frame : Frame) (response : Response)
      → frame.function ≡ read_input_registers
      → InputController.read_frame x (input_store x conversion) s frame response
        ≡ run_read_input_registers x (input_store x conversion) s frame response
  unfolding InputController.read_frame
  handled s frame response asked =
      let named : (frame.function ==f read_input_registers) ≡ true = rw asked refl in rw named refl

  -- A request to read the registers of one of the 17 fields of the device's input map is accepted,
  -- and executed it leaves the store, returns 0, and leaves in the response the address, the
  -- function's code, the field's size and the field's bytes. The map's arrays have their sizes, the
  -- response its 256 entries, and the payload lies in memory with at least 4 bytes, its two words
  -- being the field's address and its number of registers.
  pub read_frame-field :
      (i : ℕ) (s : MappedRegisterDataStore InputRegisters) (frame : Frame) (response : Response)
      → i < 17
      → IsSized s.memory_controller
      → IsPayload 4 frame.data_array
      → frame.function ≡ read_input_registers
      → IsFull response
      → word frame.data_array 0 ≡ get_or input_offsets i 0
      → word frame.data_array 2 ≡ size_at i / 2
      → (InputController.validate_frame x (input_store x conversion) s frame ≡ ok ack)
        × (InputController.read_frame x (input_store x conversion) s frame response
            ≡ ok (
              pos 0,
              s,
              record response {
                length_ = 3 + size_at i;
                data_ =
                    set_all
                      (write_at response.data_ 3 (get_or (contents s.memory_controller) i []))
                      ((0, frame.address) ∷ (1, 4) ∷ (2, size_at i) ∷ []);
              },
            ))
  unfolding InputController.validate_frame InputController.read_frame validate_read_registers
      read_address_start ReadMultiple.read_register_count
  read_frame-field i s frame response h sized p asked full address count =
      let v : View = frame.data_array in
      let (index, begins, ends, double, some, few) = input_places i h in
      let valid =
        place-valid (fields conversion cl) input_offsets input_ends x
          (fields-IsPlaced conversion cl) s i h in
      (
        rw
            (
              asked,
              read_uint16_lem x laws v 0 p.inside (omega (arith, p.room)) p.bytes,
              read_uint16_lem x laws v 2 p.inside (omega (arith, p.room)) p.bytes,
              address,
              count,
              valid,
            )
            refl,
        handled s frame response asked
            ∙ (subst
                (λ n.
                  run_read_input_registers x (input_store x conversion) s frame response
                  ≡ ok (
                    pos 0,
                    s,
                    record response {
                      length_ = 3 + n;
                      data_ =
                          set_all
                            (write_at response.data_ 3 (get_or (contents s.memory_controller) i []))
                            ((0, frame.address) ∷ (1, 4) ∷ (2, n) ∷ []);
                    },
                  ))
                (ap (λ n. 2 * n) count ∙ double)
                (run_read-answered x laws (input_store x conversion) s frame response
                  (get_or (contents s.memory_controller) i []) p full (omega (arith, count, few))
                  (rw (address, count) valid)
                  (rw (address, count) (answered_lem i s response.data_ h sized full)))),
      )
