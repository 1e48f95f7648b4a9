-- ===== src/Witnesses/Maps.antt =====
-- Concrete runs of the theorems: the maps of registers of the device.
use modbus_basic.Common.{
  ℕ, ◌≡◌, refl, false, List, [], ◌∷◌, ok, err, out_of_bounds, arith, replicate, range, write_at,
}
use modbus_basic.View.{View, view_of}
use modbus_basic.Maps.{Conversion, IsConversion, msb_value, msb_bytes, size_of}
use modbus_basic.Maps.Holding
use modbus_basic.Maps.Input
use modbus_basic.Maps.Input.{InputRegisters}
use modbus_basic.Maps.Input.Access.{
  set_version, set_firmware_version, set_compile_date, set_compile_time, set_serial_number,
}
use modbus_basic.Maps.Places.{Stores}
use modbus_basic.Maps.Holding.Places.{
  holding_offsets, holding_ends, set_holding_registers-get_registers,
}
use modbus_basic.Maps.Input.Places.{input_offsets, input_ends, set_input_registers-get_registers}
use modbus_basic.Maps.Input.Bounds.{set_bytes_lem}
use modbus_basic.Witnesses.{plain}

abbrev pub conversion : Conversion
conversion = record {
  make_msb_integer = λ t v. ok (msb_value 0 (range v.storage v.start v.size));
  make_msb_u8_array = λ t n. msb_bytes (size_of t) n [];
}

pub conversion_laws : IsConversion conversion
conversion_laws = record { from_bytes = λ t v w e b. refl; to_bytes = λ t n. refl }

new-IsSized : Input.Contents.IsSized Input.new_registers
new-IsSized = (refl, refl, refl, refl, refl)

abbrev word_view : View
word_view = view_of (1 ∷ 2 ∷ 3 ∷ 4 ∷ [])

abbrev half_view : View
half_view = view_of (0 ∷ 0 ∷ [])

set_holding_registers-get_registers_example :
    Stores
      (Holding.Fields.fields conversion conversion_laws)
      holding_offsets
      holding_ends
      plain
      (record { new_data = false; memory_controller = Holding.new_registers })
      2
      word_view
      4
      half_view
set_holding_registers-get_registers_example =
    set_holding_registers-get_registers conversion conversion_laws plain
      (record { new_data = false; memory_controller = Holding.new_registers }) 2 word_view 4
      half_view tt (omega arith) (omega arith) refl (ground arith) (omega arith) (omega arith) refl

set_input_registers-get_registers_example :
    Stores
      (Input.Fields.fields conversion conversion_laws)
      input_offsets
      input_ends
      plain
      (record { new_data = false; memory_controller = Input.new_registers })
      6
      word_view
      6
      word_view
set_input_registers-get_registers_example =
    set_input_registers-get_registers conversion conversion_laws plain
      (record { new_data = false; memory_controller = Input.new_registers }) 6 word_view 6 word_view
      new-IsSized (omega arith) (omega arith) refl (ground arith) (omega arith) (omega arith) refl

abbrev fifty : List ℕ
fifty = replicate 50 7

set_bytes_lem_example :
    (set_version Input.new_registers fifty 50
      ≡ ok
          (record Input.new_registers { version = write_at (replicate 64 0) 0 (range fifty 0 50) }))
    × (set_firmware_version Input.new_registers fifty 50
        ≡ ok (record Input.new_registers {
          firmware_version = write_at (replicate 64 0) 0 (range fifty 0 50);
        }))
    × (set_compile_date Input.new_registers fifty 50
        ≡ ok (record Input.new_registers {
          compile_date = write_at (replicate 64 0) 0 (range fifty 0 50);
        }))
    × (set_compile_time Input.new_registers fifty 50
        ≡ ok (record Input.new_registers {
          compile_time = write_at (replicate 64 0) 0 (range fifty 0 50);
        }))
    × (set_serial_number Input.new_registers fifty 50 ≡ err out_of_bounds)
set_bytes_lem_example = set_bytes_lem Input.new_registers fifty 50 new-IsSized (omega arith)
