-- ===== src/Maps/Holding.antt =====
-- examples/ConnectedDevice/common/HoldingRegisterMappedDataStore.h: the holding registers of the device.
pub mod Fields
pub mod Places
use modbus_basic.Common.{ℕ, List, [], ◌∷◌, Result, ok, ◌>>=◌, get_or, replicate}
use modbus_basic.View.{View}
use modbus_basic.Maps.{Conversion, copy_out, uint16, uint32}

-- `struct HoldingRegisters`
pub record HoldingRegisters : Type 0 where
  pub analog_output0 : ℕ
  pub analog_output1 : ℕ
  pub isp_mode : ℕ
  pub slave_address_unlock : ℕ
  pub slave_address : ℕ
  pub clear_faults : ℕ
  pub start_data_read : ℕ

-- `enum class HoldingRegistersEntryIdentifier`
pub data HoldingRegistersEntryIdentifier : Type 0 where
  analog_output0 analog_output1 isp_mode slave_address_unlock slave_address clear_faults
        start_data_read unknown :
      HoldingRegistersEntryIdentifier

-- `entry_positions_`: each field, where it begins in the structure and how many bytes it has, with the
-- fields aligned to their sizes.
abbrev pub entry_positions : List (HoldingRegistersEntryIdentifier × ℕ × ℕ)
entry_positions =
    (HoldingRegistersEntryIdentifier.analog_output0, 0, 4)
    ∷ (HoldingRegistersEntryIdentifier.analog_output1, 4, 4)
    ∷ (HoldingRegistersEntryIdentifier.isp_mode, 8, 4)
    ∷ (HoldingRegistersEntryIdentifier.slave_address_unlock, 12, 4)
    ∷ (HoldingRegistersEntryIdentifier.slave_address, 16, 2)
    ∷ (HoldingRegistersEntryIdentifier.clear_faults, 20, 4)
    ∷ (HoldingRegistersEntryIdentifier.start_data_read, 24, 4)
    ∷ []

-- `size()`
abbrev pub size : ℕ
size = 28

-- The structure as it is made: `{}` for each field.
abbrev pub new_registers : HoldingRegisters
new_registers = record {
  analog_output0 = 0;
  analog_output1 = 0;
  isp_mode = 0;
  slave_address_unlock = 0;
  slave_address = 0;
  clear_faults = 0;
  start_data_read = 0;
}

-- `static_cast<HoldingRegistersEntryIdentifier>(index)`, where an index past the last field is as good as `unknown`.
abbrev identifiers : List HoldingRegistersEntryIdentifier
identifiers =
    HoldingRegistersEntryIdentifier.analog_output0 ∷ HoldingRegistersEntryIdentifier.analog_output1
    ∷ HoldingRegistersEntryIdentifier.isp_mode
    ∷ HoldingRegistersEntryIdentifier.slave_address_unlock
    ∷ HoldingRegistersEntryIdentifier.slave_address ∷ HoldingRegistersEntryIdentifier.clear_faults
    ∷ HoldingRegistersEntryIdentifier.start_data_read ∷ []

unfoldable pub identifier_of : ℕ → HoldingRegistersEntryIdentifier
identifier_of index = get_or identifiers index HoldingRegistersEntryIdentifier.unknown

module _ (c : Conversion) where
  -- The cases of `SetField`.
  unfoldable pub set_entry :
      HoldingRegistersEntryIdentifier → View → HoldingRegisters → Result HoldingRegisters
  set_entry HoldingRegistersEntryIdentifier.unknown v r = ok r
  set_entry HoldingRegistersEntryIdentifier.analog_output0 v r = do
    value ← c.make_msb_integer uint32 v
    ok (record r { analog_output0 = value })
  set_entry HoldingRegistersEntryIdentifier.analog_output1 v r = do
    value ← c.make_msb_integer uint32 v
    ok (record r { analog_output1 = value })
  set_entry HoldingRegistersEntryIdentifier.isp_mode v r = do
    value ← c.make_msb_integer uint32 v
    ok (record r { isp_mode = value })
  set_entry HoldingRegistersEntryIdentifier.slave_address_unlock v r = do
    value ← c.make_msb_integer uint32 v
    ok (record r { slave_address_unlock = value })
  set_entry HoldingRegistersEntryIdentifier.slave_address v r = do
    value ← c.make_msb_integer uint16 v
    ok (record r { slave_address = value })
  set_entry HoldingRegistersEntryIdentifier.clear_faults v r = do
    value ← c.make_msb_integer uint32 v
    ok (record r { clear_faults = value })
  set_entry HoldingRegistersEntryIdentifier.start_data_read v r = do
    value ← c.make_msb_integer uint32 v
    ok (record r { start_data_read = value })

  -- `SetField`
  unfoldable pub set_field : HoldingRegisters → ℕ → View → Result HoldingRegisters
  set_field r index v = set_entry (identifier_of index) v r

  -- The cases of `GetField`.
  unfoldable pub get_entry : HoldingRegistersEntryIdentifier → View → HoldingRegisters → Result View
  get_entry HoldingRegistersEntryIdentifier.unknown v r = ok v
  get_entry HoldingRegistersEntryIdentifier.analog_output0 v r =
      copy_out (c.make_msb_u8_array uint32 r.analog_output0) v
  get_entry HoldingRegistersEntryIdentifier.analog_output1 v r =
      copy_out (c.make_msb_u8_array uint32 r.analog_output1) v
  get_entry HoldingRegistersEntryIdentifier.isp_mode v r =
      copy_out (c.make_msb_u8_array uint32 r.isp_mode) v
  get_entry HoldingRegistersEntryIdentifier.slave_address_unlock v r =
      copy_out (c.make_msb_u8_array uint32 r.slave_address_unlock) v
  get_entry HoldingRegistersEntryIdentifier.slave_address v r =
      copy_out (c.make_msb_u8_array uint16 r.slave_address) v
  get_entry HoldingRegistersEntryIdentifier.clear_faults v r =
      copy_out (c.make_msb_u8_array uint32 r.clear_faults) v
  get_entry HoldingRegistersEntryIdentifier.start_data_read v r =
      copy_out (c.make_msb_u8_array uint32 r.start_data_read) v

  -- `GetField`
  unfoldable pub get_field : HoldingRegisters → ℕ → View → Result View
  get_field r index v = get_entry (identifier_of index) v r

-- The getters and setters.
abbrev pub get_analog_output0 : HoldingRegisters → ℕ
get_analog_output0 r = r.analog_output0

abbrev pub set_analog_output0 : HoldingRegisters → ℕ → HoldingRegisters
set_analog_output0 r value = record r { analog_output0 = value }

abbrev pub get_analog_output1 : HoldingRegisters → ℕ
get_analog_output1 r = r.analog_output1

abbrev pub set_analog_output1 : HoldingRegisters → ℕ → HoldingRegisters
set_analog_output1 r value = record r { analog_output1 = value }

abbrev pub get_isp_mode : HoldingRegisters → ℕ
get_isp_mode r = r.isp_mode

abbrev pub set_isp_mode : HoldingRegisters → ℕ → HoldingRegisters
set_isp_mode r value = record r { isp_mode = value }

abbrev pub get_slave_address_unlock : HoldingRegisters → ℕ
get_slave_address_unlock r = r.slave_address_unlock

abbrev pub set_slave_address_unlock : HoldingRegisters → ℕ → HoldingRegisters
set_slave_address_unlock r value = record r { slave_address_unlock = value }

abbrev pub get_slave_address : HoldingRegisters → ℕ
get_slave_address r = r.slave_address

abbrev pub set_slave_address : HoldingRegisters → ℕ → HoldingRegisters
set_slave_address r value = record r { slave_address = value }

abbrev pub get_clear_faults : HoldingRegisters → ℕ
get_clear_faults r = r.clear_faults

abbrev pub set_clear_faults : HoldingRegisters → ℕ → HoldingRegisters
set_clear_faults r value = record r { clear_faults = value }

abbrev pub get_start_data_read : HoldingRegisters → ℕ
get_start_data_read r = r.start_data_read

abbrev pub set_start_data_read : HoldingRegisters → ℕ → HoldingRegisters
set_start_data_read r value = record r { start_data_read = value }
