-- ===== src/Maps/Input.antt =====
-- examples/ConnectedDevice/common/InputRegisterMappedDataStore.h: the input registers of the device.
pub mod Fields
pub mod Access
pub mod Contents
pub mod Places
pub mod Bounds
use modbus_basic.Common.{ℕ, List, [], ◌∷◌, Result, ok, ◌>>=◌, get_or, replicate}
use modbus_basic.View.{View}
use modbus_basic.Maps.{Conversion, copy_out, copy_in, copy_bytes, int32, uint16, uint32}

-- `struct InputRegisters`
pub record InputRegisters : Type 0 where
  pub version : List ℕ
  pub firmware_version : List ℕ
  pub compile_date : List ℕ
  pub compile_time : List ℕ
  pub serial_number : List ℕ
  pub fault_status : ℕ
  pub p5_micro_volts : ℕ
  pub p5_reading : ℕ
  pub p23_micro_volts : ℕ
  pub p23_reading : ℕ
  pub vlo_micro_volts : ℕ
  pub vlo_reading : ℕ
  pub thermistor_temp_spi : ℕ
  pub thermistor_temp_mcu : ℕ
  pub data_frequency : ℕ
  pub p3_3_micro_volts : ℕ
  pub p3_3_reading : ℕ

-- `enum class InputRegistersEntryIdentifier`
pub data InputRegistersEntryIdentifier : Type 0 where
  version firmware_version compile_date compile_time serial_number fault_status p5_micro_volts
        p5_reading p23_micro_volts p23_reading vlo_micro_volts vlo_reading thermistor_temp_spi
        thermistor_temp_mcu data_frequency p3_3_micro_volts p3_3_reading unknown :
      InputRegistersEntryIdentifier

-- `entry_positions_`: each field, where it begins in the structure and how many bytes it has, with the
-- fields aligned to their sizes.
abbrev pub entry_positions : List (InputRegistersEntryIdentifier × ℕ × ℕ)
entry_positions =
    (InputRegistersEntryIdentifier.version, 0, 64)
    ∷ (InputRegistersEntryIdentifier.firmware_version, 64, 64)
    ∷ (InputRegistersEntryIdentifier.compile_date, 128, 64)
    ∷ (InputRegistersEntryIdentifier.compile_time, 192, 64)
    ∷ (InputRegistersEntryIdentifier.serial_number, 256, 40)
    ∷ (InputRegistersEntryIdentifier.fault_status, 296, 2)
    ∷ (InputRegistersEntryIdentifier.p5_micro_volts, 300, 4)
    ∷ (InputRegistersEntryIdentifier.p5_reading, 304, 4)
    ∷ (InputRegistersEntryIdentifier.p23_micro_volts, 308, 4)
    ∷ (InputRegistersEntryIdentifier.p23_reading, 312, 4)
    ∷ (InputRegistersEntryIdentifier.vlo_micro_volts, 316, 4)
    ∷ (InputRegistersEntryIdentifier.vlo_reading, 320, 4)
    ∷ (InputRegistersEntryIdentifier.thermistor_temp_spi, 324, 4)
    ∷ (InputRegistersEntryIdentifier.thermistor_temp_mcu, 328, 4)
    ∷ (InputRegistersEntryIdentifier.data_frequency, 332, 4)
    ∷ (InputRegistersEntryIdentifier.p3_3_micro_volts, 336, 4)
    ∷ (InputRegistersEntryIdentifier.p3_3_reading, 340, 4)
    ∷ []

-- `size()`
abbrev pub size : ℕ
size = 344

-- The structure as it is made: `{}` for each field.
abbrev pub new_registers : InputRegisters
new_registers = record {
  version = replicate 64 0;
  firmware_version = replicate 64 0;
  compile_date = replicate 64 0;
  compile_time = replicate 64 0;
  serial_number = replicate 40 0;
  fault_status = 0;
  p5_micro_volts = 0;
  p5_reading = 0;
  p23_micro_volts = 0;
  p23_reading = 0;
  vlo_micro_volts = 0;
  vlo_reading = 0;
  thermistor_temp_spi = 0;
  thermistor_temp_mcu = 0;
  data_frequency = 0;
  p3_3_micro_volts = 0;
  p3_3_reading = 0;
}

-- `static_cast<InputRegistersEntryIdentifier>(index)`, where an index past the last field is as good as `unknown`.
abbrev identifiers : List InputRegistersEntryIdentifier
identifiers =
    InputRegistersEntryIdentifier.version ∷ InputRegistersEntryIdentifier.firmware_version
    ∷ InputRegistersEntryIdentifier.compile_date ∷ InputRegistersEntryIdentifier.compile_time
    ∷ InputRegistersEntryIdentifier.serial_number ∷ InputRegistersEntryIdentifier.fault_status
    ∷ InputRegistersEntryIdentifier.p5_micro_volts ∷ InputRegistersEntryIdentifier.p5_reading
    ∷ InputRegistersEntryIdentifier.p23_micro_volts ∷ InputRegistersEntryIdentifier.p23_reading
    ∷ InputRegistersEntryIdentifier.vlo_micro_volts ∷ InputRegistersEntryIdentifier.vlo_reading
    ∷ InputRegistersEntryIdentifier.thermistor_temp_spi
    ∷ InputRegistersEntryIdentifier.thermistor_temp_mcu
    ∷ InputRegistersEntryIdentifier.data_frequency ∷ InputRegistersEntryIdentifier.p3_3_micro_volts
    ∷ InputRegistersEntryIdentifier.p3_3_reading ∷ []

unfoldable pub identifier_of : ℕ → InputRegistersEntryIdentifier
identifier_of index = get_or identifiers index InputRegistersEntryIdentifier.unknown

module _ (c : Conversion) where
  -- The cases of `SetField`.
  unfoldable pub set_entry :
      InputRegistersEntryIdentifier → View → InputRegisters → Result InputRegisters
  set_entry InputRegistersEntryIdentifier.unknown v r = ok r
  set_entry InputRegistersEntryIdentifier.version v r = do
    bytes ← copy_in r.version v
    ok (record r { version = bytes })
  set_entry InputRegistersEntryIdentifier.firmware_version v r = do
    bytes ← copy_in r.firmware_version v
    ok (record r { firmware_version = bytes })
  set_entry InputRegistersEntryIdentifier.compile_date v r = do
    bytes ← copy_in r.compile_date v
    ok (record r { compile_date = bytes })
  set_entry InputRegistersEntryIdentifier.compile_time v r = do
    bytes ← copy_in r.compile_time v
    ok (record r { compile_time = bytes })
  set_entry InputRegistersEntryIdentifier.serial_number v r = do
    bytes ← copy_in r.serial_number v
    ok (record r { serial_number = bytes })
  set_entry InputRegistersEntryIdentifier.fault_status v r = do
    value ← c.make_msb_integer uint16 v
    ok (record r { fault_status = value })
  set_entry InputRegistersEntryIdentifier.p5_micro_volts v r = do
    value ← c.make_msb_integer int32 v
    ok (record r { p5_micro_volts = value })
  set_entry InputRegistersEntryIdentifier.p5_reading v r = do
    value ← c.make_msb_integer uint32 v
    ok (record r { p5_reading = value })
  set_entry InputRegistersEntryIdentifier.p23_micro_volts v r = do
    value ← c.make_msb_integer int32 v
    ok (record r { p23_micro_volts = value })
  set_entry InputRegistersEntryIdentifier.p23_reading v r = do
    value ← c.make_msb_integer uint32 v
    ok (record r { p23_reading = value })
  set_entry InputRegistersEntryIdentifier.vlo_micro_volts v r = do
    value ← c.make_msb_integer int32 v
    ok (record r { vlo_micro_volts = value })
  set_entry InputRegistersEntryIdentifier.vlo_reading v r = do
    value ← c.make_msb_integer uint32 v
    ok (record r { vlo_reading = value })
  set_entry InputRegistersEntryIdentifier.thermistor_temp_spi v r = do
    value ← c.make_msb_integer int32 v
    ok (record r { thermistor_temp_spi = value })
  set_entry InputRegistersEntryIdentifier.thermistor_temp_mcu v r = do
    value ← c.make_msb_integer int32 v
    ok (record r { thermistor_temp_mcu = value })
  set_entry InputRegistersEntryIdentifier.data_frequency v r = do
    value ← c.make_msb_integer uint32 v
    ok (record r { data_frequency = value })
  set_entry InputRegistersEntryIdentifier.p3_3_micro_volts v r = do
    value ← c.make_msb_integer int32 v
    ok (record r { p3_3_micro_volts = value })
  set_entry InputRegistersEntryIdentifier.p3_3_reading v r = do
    value ← c.make_msb_integer uint32 v
    ok (record r { p3_3_reading = value })

  -- `SetField`
  unfoldable pub set_field : InputRegisters → ℕ → View → Result InputRegisters
  set_field r index v = set_entry (identifier_of index) v r

  -- The cases of `GetField`.
  unfoldable pub get_entry : InputRegistersEntryIdentifier → View → InputRegisters → Result View
  get_entry InputRegistersEntryIdentifier.unknown v r = ok v
  get_entry InputRegistersEntryIdentifier.version v r = copy_out r.version v
  get_entry InputRegistersEntryIdentifier.firmware_version v r = copy_out r.firmware_version v
  get_entry InputRegistersEntryIdentifier.compile_date v r = copy_out r.compile_date v
  get_entry InputRegistersEntryIdentifier.compile_time v r = copy_out r.compile_time v
  get_entry InputRegistersEntryIdentifier.serial_number v r = copy_out r.serial_number v
  get_entry InputRegistersEntryIdentifier.fault_status v r =
      copy_out (c.make_msb_u8_array uint16 r.fault_status) v
  get_entry InputRegistersEntryIdentifier.p5_micro_volts v r =
      copy_out (c.make_msb_u8_array int32 r.p5_micro_volts) v
  get_entry InputRegistersEntryIdentifier.p5_reading v r =
      copy_out (c.make_msb_u8_array uint32 r.p5_reading) v
  get_entry InputRegistersEntryIdentifier.p23_micro_volts v r =
      copy_out (c.make_msb_u8_array int32 r.p23_micro_volts) v
  get_entry InputRegistersEntryIdentifier.p23_reading v r =
      copy_out (c.make_msb_u8_array uint32 r.p23_reading) v
  get_entry InputRegistersEntryIdentifier.vlo_micro_volts v r =
      copy_out (c.make_msb_u8_array int32 r.vlo_micro_volts) v
  get_entry InputRegistersEntryIdentifier.vlo_reading v r =
      copy_out (c.make_msb_u8_array uint32 r.vlo_reading) v
  get_entry InputRegistersEntryIdentifier.thermistor_temp_spi v r =
      copy_out (c.make_msb_u8_array int32 r.thermistor_temp_spi) v
  get_entry InputRegistersEntryIdentifier.thermistor_temp_mcu v r =
      copy_out (c.make_msb_u8_array int32 r.thermistor_temp_mcu) v
  get_entry InputRegistersEntryIdentifier.data_frequency v r =
      copy_out (c.make_msb_u8_array uint32 r.data_frequency) v
  get_entry InputRegistersEntryIdentifier.p3_3_micro_volts v r =
      copy_out (c.make_msb_u8_array int32 r.p3_3_micro_volts) v
  get_entry InputRegistersEntryIdentifier.p3_3_reading v r =
      copy_out (c.make_msb_u8_array uint32 r.p3_3_reading) v

  -- `GetField`
  unfoldable pub get_field : InputRegisters → ℕ → View → Result View
  get_field r index v = get_entry (identifier_of index) v r
