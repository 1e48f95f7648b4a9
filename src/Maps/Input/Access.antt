-- ===== src/Maps/Input/Access.antt =====
-- examples/ConnectedDevice/common/InputRegisterMappedDataStore.h: the getters and setters.
use modbus_basic.Common.{ℕ, List, Result, ok, ◌>>=◌}
use modbus_basic.View.{View}
use modbus_basic.Maps.{copy_bytes}
use modbus_basic.Maps.Input.{InputRegisters}

abbrev pub get_version : InputRegisters → View
get_version r = record { storage = r.version; start = 0; size = 64 }

unfoldable pub set_version : InputRegisters → List ℕ → ℕ → Result InputRegisters
set_version r value length = do
  bytes ← copy_bytes value 0 r.version 0 length
  ok (record r { version = bytes })

abbrev pub get_firmware_version : InputRegisters → View
get_firmware_version r = record { storage = r.firmware_version; start = 0; size = 64 }

unfoldable pub set_firmware_version : InputRegisters → List ℕ → ℕ → Result InputRegisters
set_firmware_version r value length = do
  bytes ← copy_bytes value 0 r.firmware_version 0 length
  ok (record r { firmware_version = bytes })

abbrev pub get_compile_date : InputRegisters → View
get_compile_date r = record { storage = r.compile_date; start = 0; size = 64 }

unfoldable pub set_compile_date : InputRegisters → List ℕ → ℕ → Result InputRegisters
set_compile_date r value length = do
  bytes ← copy_bytes value 0 r.compile_date 0 length
  ok (record r { compile_date = bytes })

abbrev pub get_compile_time : InputRegisters → View
get_compile_time r = record { storage = r.compile_time; start = 0; size = 64 }

unfoldable pub set_compile_time : InputRegisters → List ℕ → ℕ → Result InputRegisters
set_compile_time r value length = do
  bytes ← copy_bytes value 0 r.compile_time 0 length
  ok (record r { compile_time = bytes })

abbrev pub get_serial_number : InputRegisters → View
get_serial_number r = record { storage = r.serial_number; start = 0; size = 40 }

unfoldable pub set_serial_number : InputRegisters → List ℕ → ℕ → Result InputRegisters
set_serial_number r value length = do
  bytes ← copy_bytes value 0 r.serial_number 0 length
  ok (record r { serial_number = bytes })

abbrev pub get_fault_status : InputRegisters → ℕ
get_fault_status r = r.fault_status

abbrev pub set_fault_status : InputRegisters → ℕ → InputRegisters
set_fault_status r value = record r { fault_status = value }

abbrev pub get_p5_micro_volts : InputRegisters → ℕ
get_p5_micro_volts r = r.p5_micro_volts

abbrev pub set_p5_micro_volts : InputRegisters → ℕ → InputRegisters
set_p5_micro_volts r value = record r { p5_micro_volts = value }

abbrev pub get_p5_reading : InputRegisters → ℕ
get_p5_reading r = r.p5_reading

abbrev pub set_p5_reading : InputRegisters → ℕ → InputRegisters
set_p5_reading r value = record r { p5_reading = value }

abbrev pub get_p23_micro_volts : InputRegisters → ℕ
get_p23_micro_volts r = r.p23_micro_volts

abbrev pub set_p23_micro_volts : InputRegisters → ℕ → InputRegisters
set_p23_micro_volts r value = record r { p23_micro_volts = value }

abbrev pub get_p23_reading : InputRegisters → ℕ
get_p23_reading r = r.p23_reading

abbrev pub set_p23_reading : InputRegisters → ℕ → InputRegisters
set_p23_reading r value = record r { p23_reading = value }

abbrev pub get_vlo_micro_volts : InputRegisters → ℕ
get_vlo_micro_volts r = r.vlo_micro_volts

abbrev pub set_vlo_micro_volts : InputRegisters → ℕ → InputRegisters
set_vlo_micro_volts r value = record r { vlo_micro_volts = value }

abbrev pub get_vlo_reading : InputRegisters → ℕ
get_vlo_reading r = r.vlo_reading

abbrev pub set_vlo_reading : InputRegisters → ℕ → InputRegisters
set_vlo_reading r value = record r { vlo_reading = value }

abbrev pub get_thermistor_temp_spi : InputRegisters → ℕ
get_thermistor_temp_spi r = r.thermistor_temp_spi

abbrev pub set_thermistor_temp_spi : InputRegisters → ℕ → InputRegisters
set_thermistor_temp_spi r value = record r { thermistor_temp_spi = value }

abbrev pub get_thermistor_temp_mcu : InputRegisters → ℕ
get_thermistor_temp_mcu r = r.thermistor_temp_mcu

abbrev pub set_thermistor_temp_mcu : InputRegisters → ℕ → InputRegisters
set_thermistor_temp_mcu r value = record r { thermistor_temp_mcu = value }

abbrev pub get_data_frequency : InputRegisters → ℕ
get_data_frequency r = r.data_frequency

abbrev pub set_data_frequency : InputRegisters → ℕ → InputRegisters
set_data_frequency r value = record r { data_frequency = value }

abbrev pub get_p3_3_micro_volts : InputRegisters → ℕ
get_p3_3_micro_volts r = r.p3_3_micro_volts

abbrev pub set_p3_3_micro_volts : InputRegisters → ℕ → InputRegisters
set_p3_3_micro_volts r value = record r { p3_3_micro_volts = value }

abbrev pub get_p3_3_reading : InputRegisters → ℕ
get_p3_3_reading r = r.p3_3_reading

abbrev pub set_p3_3_reading : InputRegisters → ℕ → InputRegisters
set_p3_3_reading r value = record r { p3_3_reading = value }
